-- ===== src/Client/Scenes/Drawing.antt =====
-- What the scenes draw (client/src/scenes/).
use net_pixeld.Prelude.{◌/◌, Option, none, some, List, [], ◌∷◌, ◌++◌, codes}
use net_pixeld.Prelude.Int.{pos}
use net_pixeld.Client.Raylib.{Raylib, Screen, Call, draw_text, darkgray, minus}
use net_pixeld.Client.Button.Look as ButtonLook
use net_pixeld.Client.Textbox.Look as TextboxLook
use net_pixeld.Client.Context.{GameContext}
use net_pixeld.Client.Scenes.{LoginScene, Scene, login_scene, game_scene, SceneManager}

module _ (gl : Raylib) where
  open gl use {Float, format_unsigned}

  -- LoginScene::Draw; the text boxes move the row of their texture.
  unfoldable pub draw_login : Screen Float → LoginScene Float → List (Call Float) × LoginScene Float
  unfolding TextboxLook.draw ButtonLook.draw
  draw_login screen s =
      let (user_calls, user) = TextboxLook.draw gl s.font s.username_textbox in
      let (pass_calls, pass) = TextboxLook.draw gl s.font s.pass_textbox in
      (
        draw_text (codes "LOGIN") (minus (screen.width / 2) 50) (pos 10) 30 darkgray
            ∷ (user_calls ++ (pass_calls ++ ButtonLook.draw gl s.login_button)),
        record s { username_textbox = user; pass_textbox = pass },
      )

  -- GameScene::Draw
  unfoldable pub draw_game : {V : Type 0} → GameContext V → List (Call Float)
  draw_game ctx =
      draw_text (codes "CLIENT:") (pos 200) (pos 200) 12 darkgray
      ∷ draw_text (format_unsigned (codes "WOOD: %u") ctx.player.resources.wood) (pos 200) (pos 250)
          12 darkgray
      ∷ draw_text (format_unsigned (codes "FOOD: %u") ctx.player.resources.food) (pos 200) (pos 300)
          12 darkgray
      ∷ draw_text (format_unsigned (codes "IRON: %u") ctx.player.resources.iron) (pos 200) (pos 350)
          12 darkgray
      ∷ []

  abbrev draw_scene :
      {V : Type 0} → Screen Float → GameContext V → Scene Float → List (Call Float) × Scene Float
  draw_scene screen ctx (login_scene s) =
      let (calls, after) = draw_login screen s in (calls, login_scene after)
  draw_scene screen ctx game_scene = (draw_game ctx, game_scene)

  abbrev draw_current :
      {V : Type 0}
      → Screen Float
      → GameContext V
      → Option (Scene Float)
      → List (Call Float) × Option (Scene Float)
  draw_current screen ctx none = ([], none)
  draw_current screen ctx (some scene) =
      let (calls, after) = draw_scene screen ctx scene in (calls, some after)

  -- SceneManager::Draw
  unfoldable pub draw_manager :
      {V : Type 0}
      → Screen Float
      → GameContext V
      → SceneManager Float
      → List (Call Float) × SceneManager Float
  draw_manager screen ctx m =
      let (calls, current) = draw_current screen ctx m.current in
      (calls, record m { current = current })
