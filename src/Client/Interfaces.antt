-- ===== src/Client/Interfaces.antt =====
-- The methods of the client's classes (client/inc/) and the definitions that implement them.
use net_pixeld.Prelude.{ℕ, Bool, Option, List, Text}
use net_pixeld.Prelude.Exec.{Exec}
use net_pixeld.Json.{Json}
use net_pixeld.Resource.{Resources}
use net_pixeld.Protocol.{Message}
use net_pixeld.Client.Raylib.{Raylib, Vector2, Rectangle, Texture, Screen, Call}
use net_pixeld.Client.Font.{
  CFont, blank_font, load_font, set_font_spacing, set_font_size, get_font_spacing, get_font_size,
}
use net_pixeld.Client.Timer.{Timer, new_timer, refresh, has_time_passed_ms}
use net_pixeld.Client.Network.{
  NetworkClient, new_client, destroy, connect, send_message, poll_message, shutdown, receive,
}
use net_pixeld.Client.Context.{Player, GameContext, new_player, destroy_player, update_resources}
use net_pixeld.Client.Button
use net_pixeld.Client.Button.{
  Button, Mouse, Effect, new_button, set_textures, set_sound, set_callbacks,
}
use net_pixeld.Client.Button.Look as ButtonLook
use net_pixeld.Client.Textbox.{
  TextBox, Input, get_text, handle_input, update_state, update_output_text,
}
use net_pixeld.Client.Textbox.Look as TextboxLook
use net_pixeld.Client.Textbox.Look.{
  new_text_box, set_center, set_dimensions, set_font, set_focus_animation, animate,
  create_fallback_texture, transformed_bounds,
}
use net_pixeld.Client.Scenes.{
  Scene, SceneId, SceneManager, Frame, register_scene, change_scene, get_current_id, get_current,
}
use net_pixeld.Client.Scenes.Handling.{update_scene}
use net_pixeld.Client.Scenes.Drawing.{draw_manager}
use net_pixeld.Client.Application
use net_pixeld.Client.Application.{Application, new_application}

-- class CFont; a CFont is made blank or from a path.
pub record CfontClass (F : Type 0) : Type 0 where
  pub blank : ℕ → ℕ → ℕ → CFont
  pub loads : Text → ℕ → ℕ → List (Call F) × CFont
  pub sets_spacing : ℕ → CFont → CFont
  pub sets_size : ℕ → CFont → CFont
  pub spacing_of : CFont → ℕ
  pub size_of : CFont → ℕ

abbrev pub cfont_class : {F : Type 0} → CfontClass F
cfont_class = record {
  blank = blank_font;
  loads = load_font;
  sets_spacing = set_font_spacing;
  sets_size = set_font_size;
  spacing_of = get_font_spacing;
  size_of = get_font_size;
}

-- class Timer; the argument that every method takes first is the time of the clock.
pub record TimerClass : Type 0 where
  pub constructs : ℕ → Timer
  pub tests : ℕ → ℕ → Timer → Bool × Timer
  pub refreshes : ℕ → Timer → Timer

abbrev pub timer_class : TimerClass
timer_class = record { constructs = new_timer; tests = has_time_passed_ms; refreshes = refresh }

-- class Player
pub record PlayerClass : Type 0 where
  pub constructs : Player
  pub destroys : Player → Player
  pub updates : Resources → Player → Player

abbrev pub player_class : PlayerClass
player_class = record {
  constructs = new_player;
  destroys = destroy_player;
  updates = update_resources;
}

-- class NetworkClient; the host and port are the environment's.
pub record NetworkClass (json : Json) : Type 0 where
  pub constructs : NetworkClient json.Value
  pub destroys : NetworkClient json.Value → NetworkClient json.Value
  pub connects : Bool → NetworkClient json.Value → Bool × NetworkClient json.Value
  pub sends : Bool → Message json.Value → Exec (NetworkClient json.Value) (Unit {0})
  pub polls : NetworkClient json.Value → Option (Message json.Value) × NetworkClient json.Value
  pub shuts_down : NetworkClient json.Value → NetworkClient json.Value
  pub receives : Option Text → NetworkClient json.Value → NetworkClient json.Value

abbrev pub network_class : (json : Json) → NetworkClass json
network_class json = record {
  constructs = new_client;
  destroys = destroy;
  connects = connect;
  sends = send_message json;
  polls = poll_message;
  shuts_down = shutdown;
  receives = receive json;
}

module _ (gl : Raylib) where
  open gl use {Float}

  -- class Button
  pub record ButtonClass : Type 0 where
    pub constructs : Rectangle Float → Text → Option ℕ → Button Float
    pub sets_textures :
        Option Texture → Option Texture → Option Texture → Button Float → Button Float
    pub sets_sound : Bool → Button Float → Button Float
    pub sets_callbacks : Bool → Bool → Bool → Button Float → Button Float
    pub updates : Mouse → Button Float → List Effect × Button Float
    pub draws : Button Float → List (Call Float)

  abbrev pub button_class : ButtonClass
  button_class = record {
    constructs = new_button;
    sets_textures = set_textures;
    sets_sound = set_sound;
    sets_callbacks = set_callbacks;
    updates = Button.update;
    draws = ButtonLook.draw gl;
  }

  -- class TextBox; the font is the object that the box points to.
  pub record TextboxClass : Type 0 where
    pub constructs :
        Option Texture → Option CFont → Bool → CFont → Screen Float → CFont × TextBox Float
    pub updates : Screen Float → List ℕ → CFont → TextBox Float → List ℕ × CFont × TextBox Float
    pub draws : CFont → TextBox Float → List (Call Float) × TextBox Float
    pub sets_center : Vector2 Float → TextBox Float → TextBox Float
    pub sets_dimensions : Vector2 Float → TextBox Float → TextBox Float
    pub sets_font : CFont → CFont → CFont
    pub sets_focus_animation : Bool → TextBox Float → TextBox Float
    pub text_in : TextBox Float → Text
    pub handles_input : Input → TextBox Float → TextBox Float
    pub updates_state : Input → TextBox Float → TextBox Float
    pub animates : TextBox Float → TextBox Float
    pub updates_output_text : (ℕ → Bool) → Input → CFont → TextBox Float → CFont × TextBox Float
    pub creates_fallback_texture : ℕ → List (Call Float) × Texture
    pub bounds_of : TextBox Float → Rectangle Float

  abbrev pub textbox_class : TextboxClass
  textbox_class = record {
    constructs = new_text_box gl;
    updates = TextboxLook.update gl;
    draws = TextboxLook.draw gl;
    sets_center = set_center;
    sets_dimensions = set_dimensions;
    sets_font = set_font;
    sets_focus_animation = set_focus_animation;
    text_in = get_text;
    handles_input = handle_input;
    updates_state = update_state;
    animates = animate gl;
    updates_output_text = update_output_text;
    creates_fallback_texture = create_fallback_texture gl;
    bounds_of = transformed_bounds gl;
  }

  -- class SceneManager
  pub record SceneManagerClass (json : Json) : Type 0 where
    pub registers_scene : SceneId → SceneManager Float → SceneManager Float
    pub changes_scene : Screen Float → SceneId → SceneManager Float → SceneManager Float
    pub updates : Frame Float → Scene Float → Exec (GameContext json.Value) (Scene Float)
    pub draws :
        Screen Float
        → GameContext json.Value
        → SceneManager Float
        → List (Call Float) × SceneManager Float
    pub current_id_of : SceneManager Float → SceneId
    pub current_of : SceneManager Float → Option (Scene Float)

  abbrev pub scene_manager_class : (json : Json) → SceneManagerClass json
  scene_manager_class json = record {
    registers_scene = register_scene;
    changes_scene = change_scene gl;
    updates = update_scene json gl;
    draws = draw_manager gl;
    current_id_of = get_current_id;
    current_of = get_current;
  }

  -- class Application
  pub record ApplicationClass (json : Json) : Type 0 where
    pub constructs : ℕ → ℕ → Text → Screen Float → Bool → Application json gl
    pub runs : List (Frame Float) → Exec (Application json gl) (List (List (Call Float)))
    pub updates : Frame Float → Exec (Application json gl) (Unit {0})
    pub draws : Screen Float → Application json gl → List (Call Float) × Application json gl

  abbrev pub application_class : (json : Json) → ApplicationClass json
  application_class json = record {
    constructs = new_application json gl;
    runs = Application.run json gl;
    updates = Application.update json gl;
    draws = Application.draw json gl;
  }
