-- ===== src/Client/Scenes/Interface.antt =====
-- The interface of a scene (client/inc/scenes/IScene.hpp) and what the two scenes put into it.
use net_pixeld.Prelude.{Bool, false, List, text_eq}
use net_pixeld.Prelude.Exec.{Exec, pure}
use net_pixeld.Json.{Json}
use net_pixeld.Protocol.{Message}
use net_pixeld.Client.Raylib.{Raylib, Screen, Call}
use net_pixeld.Client.Context.{GameContext}
use net_pixeld.Client.Scenes.{LoginScene, Frame, on_enter}
use net_pixeld.Client.Scenes.Handling.{
  update_login_scene, handle_login_message, handle_game_message,
}
use net_pixeld.Client.Scenes.Drawing.{draw_login, draw_game}

-- LoginScene::onExit
abbrev pub login_on_exit : {F : Type 0} → LoginScene F → LoginScene F
login_on_exit s = s

-- The bodies of GameScene that do nothing; GameScene has no members.
abbrev pub game_on_enter : Unit {0} → Unit {0}
game_on_enter s = s

abbrev pub game_on_exit : Unit {0} → Unit {0}
game_on_exit s = s

abbrev pub game_update : {S : Type 0} → Unit {0} → Exec S (Unit {0})
game_update s = pure s

module _ (json : Json) (gl : Raylib) where
  open json use {Value}
  open gl use {Float}

  -- The virtual methods, on the members S of a scene; the context is that of `m_ctx`.
  pub record IScene (S : Type 0) : Type 0 where
    pub enters : Screen Float → S → S
    pub exits : S → S
    pub updates : Frame Float → S → Exec (GameContext Value) S
    pub draws : Screen Float → GameContext Value → S → List (Call Float) × S
    pub handles : S → Message Value → Exec (GameContext Value) Bool

  -- the body that IScene gives to `handleMessage`
  abbrev pub default_handle_message :
      {S : Type 0} → S → Message Value → Exec (GameContext Value) Bool
  default_handle_message s msg = pure false

  abbrev pub login_interface : IScene (LoginScene Float)
  login_interface = record {
    enters = on_enter gl;
    exits = login_on_exit;
    updates = update_login_scene json gl;
    draws = λ screen ctx s. draw_login gl screen s;
    handles = λ s msg. handle_login_message json msg;
  }

  abbrev pub game_interface : IScene (Unit {0})
  game_interface = record {
    enters = λ screen s. game_on_enter s;
    exits = game_on_exit;
    updates = λ f s. game_update s;
    draws = λ screen ctx s. (draw_game gl ctx, s);
    handles = λ s msg. handle_game_message json msg;
  }
