-- ===== src/Client/Scenes.antt =====
-- The scenes and their manager (client/src/scenes/). Drawing has what the scenes draw.
pub mod Drawing
pub mod Handling
pub mod Interface
pub mod Boxes
pub mod Replies
pub mod Requests
use net_pixeld.Prelude.{
  ℕ, ◌≡◌, Bool, true, false, not, Option, none, some, List, [], ◌∷◌, ◌++◌, ◌||◌, ◌==◌, Text, codes,
  text_eq, is_empty, if◌then◌else◌,
}
use net_pixeld.Prelude.Int.{pos}
use net_pixeld.Prelude.Outcome
use net_pixeld.Prelude.Outcome.{Outcome, ok, throw, json_error, or_throw}
use net_pixeld.Prelude.Exec.{Exec, ◌>>=◌, ◌>>◌, continue, lift, modify, pure}
use net_pixeld.Json.{Json}
use net_pixeld.Resource.{Resources}
use net_pixeld.Protocol.{Message, msg_login_request, msg_login_result, msg_resource_update}
use net_pixeld.Client.Raylib.{Raylib, Vector2, Rectangle, Screen}
use net_pixeld.Client.Font.{CFont, blank_font, load_font}
use net_pixeld.Client.Network.{NetworkClient, send_message}
use net_pixeld.Client.Button
use net_pixeld.Client.Button.{Button, Effect, click, new_button, set_callbacks}
use net_pixeld.Client.Button.Look.{mouse_of}
use net_pixeld.Client.Textbox.{TextBox, get_text}
use net_pixeld.Client.Textbox.Look
use net_pixeld.Client.Textbox.Look.{
  new_text_box, set_center, set_dimensions, set_font, set_focus_animation,
}
use net_pixeld.Client.Context.{Player, GameContext, update_resources}

pub data SceneId : Type 0 where
  login game : SceneId

-- `font` is the CFont object that m_font and both text boxes point to.
pub record LoginScene (F : Type 0) : Type 0 where
  pub username : Text
  pub pass : Text
  pub font : CFont
  pub username_textbox : TextBox F
  pub pass_textbox : TextBox F
  pub login_button : Button F

-- An `IScene` object; GameScene has no member of its own.
pub data Scene (F : Type 0) : Type 0 where
  login_scene : LoginScene F → Scene F
  game_scene : Scene F

-- m_factories is the list of the registered ids.
pub record SceneManager (F : Type 0) : Type 0 where
  pub current_id : SceneId
  pub current : Option (Scene F)
  pub factories : List SceneId

abbrev pub new_scene_manager : {F : Type 0} → SceneManager F
new_scene_manager = record { current_id = login; current = none; factories = [] }

unfoldable pub register_scene : {F : Type 0} → SceneId → SceneManager F → SceneManager F
register_scene id m = record m { factories = id ∷ m.factories }

-- currentID
abbrev pub get_current_id : {F : Type 0} → SceneManager F → SceneId
get_current_id m = m.current_id

-- current
abbrev pub get_current : {F : Type 0} → SceneManager F → Option (Scene F)
get_current m = m.current

abbrev same_scene : SceneId → SceneId → Bool
same_scene login login = true
same_scene game game = true
same_scene _ _ = false

abbrev is_registered : SceneId → List SceneId → Bool
is_registered id [] = false
is_registered id (j ∷ rest) = same_scene j id || is_registered id rest

-- What raylib and the socket answer in a frame.
pub record Frame (F : Type 0) : Type 0 where
  pub screen : Screen F
  pub write_fails : Bool

abbrev is_click : List Effect → Bool
is_click [] = false
is_click (click ∷ es) = true
is_click (_ ∷ es) = is_click es

module _ (gl : Raylib) where
  open gl use {Float, number, sub, add, div}

  -- half of a dimension of the window
  abbrev half : ℕ → Float
  half n = div (number (pos n)) (number (pos 2))

  -- the constructor, with the text boxes made without a texture, a font or a sound
  unfoldable pub new_login_scene : Screen Float → LoginScene Float
  unfolding new_text_box blank_font
  new_login_scene screen =
      let (font, box) =
        new_text_box gl none none false (blank_font screen.default_font 0 0) screen in
      let bounds : Rectangle Float = record {
        x = sub (half screen.width) (number (pos 100));
        y = add (half screen.height) (number (pos 125));
        width = number (pos 200);
        height = number (pos 50);
      } in
      record {
        username = [];
        pass = [];
        font = font;
        username_textbox = box;
        pass_textbox = box;
        login_button = new_button bounds (codes "Login") none;
      }

  -- The text boxes are placed above and below the middle of the window, in every frame.
  unfoldable pub place : Screen Float → LoginScene Float → LoginScene Float
  unfolding set_center set_dimensions
  place screen s =
      let dimensions : Vector2 Float = record { x = number (pos 200); y = number (pos 40) } in
      let above : Vector2 Float = record {
        x = half screen.width;
        y = sub (half screen.height) (number (pos 50));
      } in
      let below : Vector2 Float = record {
        x = half screen.width;
        y = add (half screen.height) (number (pos 50));
      } in
      record s {
        username_textbox = set_dimensions dimensions (set_center above s.username_textbox);
        pass_textbox = set_dimensions dimensions (set_center below s.pass_textbox);
      }

  -- LoginScene::onEnter: both boxes get the loaded font, and the button its callbacks.
  unfoldable pub on_enter : Screen Float → LoginScene Float → LoginScene Float
  unfolding place set_focus_animation set_callbacks load_font
  on_enter screen s =
      let placed = place screen s in
      let path = codes "../resources/fonts/BLKCHCRY.TTF" in
      record placed {
        font =
            set_font (load_font {F = Float} path screen.loaded_font screen.default_font).1
              placed.font;
        username_textbox = set_focus_animation true placed.username_textbox;
        pass_textbox = set_focus_animation true placed.pass_textbox;
        login_button = set_callbacks true true true placed.login_button;
      }

  -- The scene that a factory makes, after its `onEnter`; that of the game does nothing.
  unfoldable pub enter : Screen Float → SceneId → Scene Float
  unfolding new_login_scene on_enter
  enter screen login = login_scene (on_enter screen (new_login_scene screen))
  enter screen game = game_scene

  -- Both scenes' `onExit` do nothing.
  unfoldable pub change_scene : Screen Float → SceneId → SceneManager Float → SceneManager Float
  change_scene screen id m =
      if is_registered id m.factories
      then record m { current = some (enter screen id); current_id = id }
      else record m { current = none }

  -- LoginScene::Update up to the callback, and whether the button was clicked. The font is one object:
  -- the second box leaves its size.
  unfoldable pub update_login : Screen Float → LoginScene Float → Bool × LoginScene Float
  unfolding Look.update place get_text Button.update
  update_login screen scene =
      let s = place screen scene in
      let (keys, font, user) = Look.update gl screen screen.typed s.font s.username_textbox in
      let (_, fitted, pass) = Look.update gl screen keys font s.pass_textbox in
      let (effects, button) = Button.update (mouse_of gl screen s.login_button) s.login_button in
      (
        is_click effects,
        record {
          username = get_text user;
          pass = get_text pass;
          font = fitted;
          username_textbox = user;
          pass_textbox = pass;
          login_button = button;
        },
      )
