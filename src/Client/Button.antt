-- ===== src/Client/Button.antt =====
-- Button (client/src/gui/Button.cpp): the press and release logic. What raylib reports in a frame is
-- an argument; the callbacks and the sound that are called are the result, in order.
pub mod Presses
pub mod Look
use net_pixeld.Prelude.{
  ℕ, Option, none, Text, Bool, true, false, not, List, [], ◌∷◌, ◌++◌, ◌&&◌, if◌then◌else◌,
}
use net_pixeld.Client.Raylib.{Rectangle, Texture}

pub data State : Type 0 where
  normal hovered pressed : State

-- A font is the id of its texture; of the callbacks and the sound, whether they are set.
pub record Button (F : Type 0) : Type 0 where
  pub bounds : Rectangle F
  pub text : Text
  pub font : Option ℕ
  pub tex_normal : Option Texture
  pub tex_hover : Option Texture
  pub tex_pressed : Option Texture
  pub click_sound : Bool
  pub on_click : Bool
  pub on_hover : Bool
  pub on_release : Bool
  pub state : State
  -- a press that is open
  pub was_pressed : Bool

-- the constructor and the member initializers
abbrev pub new_button : {F : Type 0} → Rectangle F → Text → Option ℕ → Button F
new_button bounds text font = record {
  bounds = bounds;
  text = text;
  font = font;
  tex_normal = none;
  tex_hover = none;
  tex_pressed = none;
  click_sound = false;
  on_click = false;
  on_hover = false;
  on_release = false;
  state = normal;
  was_pressed = false;
}

unfoldable pub set_textures :
    {F : Type 0} → Option Texture → Option Texture → Option Texture → Button F → Button F
set_textures idle over held b = record b { tex_normal = idle; tex_hover = over; tex_pressed = held }

unfoldable pub set_sound : {F : Type 0} → Bool → Button F → Button F
set_sound sound b = record b { click_sound = sound }

unfoldable pub set_callbacks : {F : Type 0} → Bool → Bool → Bool → Button F → Button F
set_callbacks click hover release b = record b {
  on_click = click;
  on_hover = hover;
  on_release = release;
}

-- hovering, and the left mouse button: down, pressed in this frame, released in this frame
pub record Mouse : Type 0 where
  pub hovering : Bool
  pub down : Bool
  pub went_down : Bool
  pub went_up : Bool

pub data Effect : Type 0 where
  sound click hover release : Effect

abbrev when : Bool → Effect → List Effect
when true e = e ∷ []
when false e = []

unfoldable pub update : {F : Type 0} → Mouse → Button F → List Effect × Button F
update m b =
    if m.hovering
    then (if m.went_down
        then (
          when b.click_sound sound ++ when b.on_click click,
          record b { state = pressed; was_pressed = true },
        )
        else if m.down
        then ([], record b { state = pressed })
        else if b.was_pressed && m.went_up
        then (
          when b.on_hover hover ++ when b.on_release release,
          record b { state = hovered; was_pressed = false },
        )
        else (when b.on_hover hover, record b { state = hovered }))
    else ([], record b { state = normal; was_pressed = false })
