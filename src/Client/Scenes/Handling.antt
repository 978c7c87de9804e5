-- ===== src/Client/Scenes/Handling.antt =====
-- The updates of the scenes and the messages that they take (client/src/scenes/).
use net_pixeld.Prelude.{
  Bool, true, false, Option, [], ◌∷◌, ◌||◌, ◌==◌, Text, codes, text_eq, is_empty, if◌then◌else◌,
}
use net_pixeld.Prelude.Outcome
use net_pixeld.Prelude.Outcome.{Outcome, ok, throw, json_error, or_throw}
use net_pixeld.Prelude.Exec.{Exec, ◌>>=◌, ◌>>◌, lift, modify, pure}
use net_pixeld.Json.{Json}
use net_pixeld.Protocol.{Message, msg_login_request, msg_login_result, msg_resource_update}
use net_pixeld.Client.Raylib.{Raylib}
use net_pixeld.Client.Network.{NetworkClient, send_message}
use net_pixeld.Client.Context.{GameContext, update_resources}
use net_pixeld.Client.Scenes.{LoginScene, Scene, login_scene, game_scene, Frame, update_login}

module _ (json : Json) where
  open json use {Value, object, string, at, get_string, get_uint}

  abbrev pub login_request : Text → Text → Message Value
  login_request username pass = record {
    type = msg_login_request;
    sequence = 1;
    payload = object ((codes "id", string username) ∷ (codes "password", string pass) ∷ []);
  }

  abbrev pub on_net : {A : Type 0} → Exec (NetworkClient Value) A → Exec (GameContext Value) A
  on_net m ctx = let (result, net) = m ctx.net in (result, record ctx { net = net })

  -- the click callback of the login button
  unfoldable pub on_click : {F : Type 0} → Bool → LoginScene F → Exec (GameContext Value) (Unit {0})
  on_click write_fails scene =
      if is_empty scene.username || is_empty scene.pass
      then pure tt
      else on_net (send_message json write_fails (login_request scene.username scene.pass))

  -- LoginScene::Update, with the callback of a click
  unfoldable pub update_login_scene :
      (gl : Raylib)
      → Frame gl.Float
      → LoginScene gl.Float
      → Exec (GameContext Value) (LoginScene gl.Float)
  update_login_scene gl f s =
      let (clicked, after) = update_login gl f.screen s in
      do (if clicked then on_click f.write_fails after else pure tt); pure after

  -- `Update` of the current scene
  unfoldable pub update_scene :
      (gl : Raylib) → Frame gl.Float → Scene gl.Float → Exec (GameContext Value) (Scene gl.Float)
  unfolding update_login_scene
  update_scene gl f game_scene = pure game_scene
  update_scene gl f (login_scene s) = do after ← update_login_scene gl f s; pure (login_scene after)

  -- msg.payload.at(key).get<…>()
  abbrev pub member :
      {A : Type 0} → (Value → Option A) → Message Value → Text → Exec (GameContext Value) A
  member convert msg key = lift (
      Outcome.◌>>=◌ (or_throw json_error (at msg.payload key)) λ v. or_throw json_error (convert v))

  abbrev login_result : Message Value → Exec (GameContext Value) Bool
  login_result msg = do
    uuid ← member get_string msg (codes "uuid")
    modify (λ ctx. record ctx { uuid = uuid })
    pure true

  abbrev own_update : Message Value → Exec (GameContext Value) Bool
  own_update msg = do
    wood ← member (get_uint 64) msg (codes "wood")
    food ← member (get_uint 64) msg (codes "food")
    iron ← member (get_uint 64) msg (codes "iron")
    modify (λ ctx. record ctx {
      player = update_resources (record { wood = wood; food = food; iron = iron }) ctx.player;
    })
    pure true

  abbrev resource_update : Message Value → Exec (GameContext Value) Bool
  resource_update msg = do
    uuid ← member get_string msg (codes "uuid")
    λ ctx. if uuid == ctx.uuid then own_update msg ctx else (ok true, ctx)

  -- LoginScene::handleMessage and GameScene::handleMessage; true is a message that the scene took.
  abbrev pub handle_login_message : Message Value → Exec (GameContext Value) Bool
  handle_login_message msg = if msg.type == msg_login_result then login_result msg else pure false

  abbrev pub handle_game_message : Message Value → Exec (GameContext Value) Bool
  handle_game_message msg =
      if msg.type == msg_resource_update then resource_update msg else pure false

  -- `handleMessage` of the current scene
  unfoldable pub handle_message :
      {F : Type 0} → Scene F → Message Value → Exec (GameContext Value) Bool
  handle_message (login_scene s) msg = handle_login_message msg
  handle_message game_scene msg = handle_game_message msg
