-- ===== src/Client/Textbox.antt =====
-- TextBox (client/src/gui/Textbox.cpp): the members, the text, the focus, the cursor and the font
-- size. Look has the geometry, the drawing and the whole of a frame. Box positions are `float`s of the
-- type F. The font is shared between boxes, so the functions that change it take it and return it.
pub mod Look
pub mod Typing
use net_pixeld.Prelude.{
  ℕ, zero, suc, ◌+◌, ◌-◌, Bool, true, false, not, List, [], ◌∷◌, ◌++◌, ◌&&◌, Text, codes, leb, ltb,
  is_empty, if◌then◌else◌,
}
use net_pixeld.Client.Raylib.{Vector2, Rectangle, Texture}
use net_pixeld.Client.Font.{CFont, set_font_size, set_font_spacing}
use net_pixeld.Client.Timer.{Timer, refresh, has_time_passed_ms}

pub data TextBoxState : Type 0 where
  not_active hovered active : TextBoxState

pub record TextBox (F : Type 0) : Type 0 where
  pub texture : Texture
  -- whether m_fx is set, and how often it was played
  pub fx : Bool
  pub played : ℕ
  pub input_text : Text
  pub output_text : Text
  -- the centre, and the size before scaling
  pub position : Vector2 F
  pub base_size : Vector2 F
  pub source_rec : Rectangle F
  pub state : TextBoxState
  pub num_frames : ℕ
  pub frame_height : F
  pub scale : F
  pub animate_focus : Bool
  pub showing_cursor : Bool
  pub timer : Timer

abbrev pub k_blink_interval : ℕ
k_blink_interval = 1000

abbrev pub k_default_font_size : ℕ
k_default_font_size = 20

abbrev pub k_default_font_spacing : ℕ
k_default_font_spacing = 2

-- A frame's input: the mouse is over the box, the left button was pressed, the characters typed
-- (code points, in order), the backspace key was pressed, the current time.
pub record Input : Type 0 where
  pub over : Bool
  pub clicked : Bool
  pub typed : List ℕ
  pub backspace : Bool
  pub now : ℕ

abbrev pub after_hover : TextBoxState → TextBoxState
after_hover active = active
after_hover _ = hovered

abbrev pub after_leave : TextBoxState → TextBoxState
after_leave hovered = not_active
after_leave s = s

unfoldable pub update_state : {F : Type 0} → Input → TextBox F → TextBox F
update_state i b = record b {
  state =
      if i.over
      then (if i.clicked then active else after_hover b.state)
      else if i.clicked
      then not_active
      else after_leave b.state;
}

-- the loop over GetCharPressed(), which ends at the first 0, with the plays of the sound
unfoldable pub type_keys : Bool → List ℕ → Text × ℕ → Text × ℕ
type_keys fx [] (s, plays) = (s, plays)
type_keys fx (zero ∷ keys) (s, plays) = (s, plays)
type_keys fx (suc k ∷ keys) (s, plays) = type_keys fx keys (
    if leb 32 (suc k) && leb (suc k) 125
    then (s ++ suc k ∷ [], if fx then plays + 1 else plays)
    else (s, plays))

-- s.pop_back()
abbrev pub pop_back : Text → Text
pop_back [] = []
pop_back (c ∷ []) = []
pop_back (c ∷ d ∷ s) = c ∷ pop_back (d ∷ s)

unfoldable pub handle_input : {F : Type 0} → Input → TextBox F → TextBox F
unfolding type_keys
handle_input i b =
    let (s, plays) = type_keys b.fx i.typed (b.input_text, b.played) in
    record b {
      input_text = if i.backspace && not (is_empty s) then pop_back s else s;
      played = plays;
    }

-- while (too wide && font size > 8) font size -= 1, for at most `fuel` rounds
unfoldable pub shrink : ℕ → (ℕ → Bool) → ℕ → ℕ
shrink zero too_wide size = size
shrink (suc fuel) too_wide size =
    let smaller = shrink fuel too_wide (size - 1) in
    if too_wide size && ltb 8 size then smaller else size

-- the output text with its cursor; an empty one is shown as "-"
abbrev with_cursor : Bool → Text → Text
with_cursor cursor s = if cursor then s ++ codes "|" else s

abbrev or_dash : Text → Text
or_dash s = if is_empty s then codes "-" else s

-- The loop over the font size starts at 20, goes down by one and stops at 8, so twenty rounds are
-- enough. The cursor that is shown is the one before the blink.
unfoldable pub update_output_text :
    {F : Type 0} → (ℕ → Bool) → Input → CFont → TextBox F → CFont × TextBox F
unfolding shrink has_time_passed_ms refresh set_font_size set_font_spacing
update_output_text too_wide i font b =
    let large = set_font_spacing k_default_font_spacing (set_font_size k_default_font_size font) in
    let (passed, timer) = has_time_passed_ms i.now k_blink_interval b.timer in
    (
      set_font_size (shrink 20 too_wide large.size) large,
      record b {
        output_text = or_dash (with_cursor b.showing_cursor b.input_text);
        showing_cursor = if passed then not b.showing_cursor else b.showing_cursor;
        timer = if passed then refresh i.now timer else timer;
      },
    )

abbrev pub is_active : TextBoxState → Bool
is_active active = true
is_active _ = false

unfoldable pub get_text : {F : Type 0} → TextBox F → Text
get_text b = b.input_text
