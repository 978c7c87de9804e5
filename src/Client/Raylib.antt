-- ===== src/Client/Raylib.antt =====
-- What the client calls of raylib and raylib-cpp, which are not part of the repository: `float`
-- arithmetic, text measurement and collision are a parameter; drawing is the list of the calls made;
-- what raylib reports in a frame is a record.
use net_pixeld.Prelude.{ℕ, ◌-◌, Bool, List, Text, leb, if◌then◌else◌}
use net_pixeld.Prelude.Int.{ℤ, pos, negsuc}

pub record Vector2 (F : Type 0) : Type 0 where
  pub x : F
  pub y : F

pub record Rectangle (F : Type 0) : Type 0 where
  pub x : F
  pub y : F
  pub width : F
  pub height : F

-- raylib's colours that the client names
pub data Color : Type 0 where
  raywhite white lightgray gray darkgray black red : Color

pub record Texture : Type 0 where
  pub id : ℕ
  pub width : ℕ
  pub height : ℕ

pub record Raylib : Type 1 where
  pub Float : Type 0
  -- an `int` as a `float`, and a literal with two decimals
  pub number : ℤ → Float
  pub hundredths : ℕ → Float
  pub add : Float → Float → Float
  pub sub : Float → Float → Float
  pub mul : Float → Float → Float
  pub div : Float → Float → Float
  -- a > b, and the conversion to `int`
  pub above : Float → Float → Bool
  pub truncate : Float → ℤ
  -- MeasureTextEx by font, text, size and spacing; MeasureText of the default font by text and size
  pub measure : ℕ → Text → ℕ → ℕ → Vector2 Float
  pub measure_default : Text → ℕ → ℤ
  -- CheckCollisionPointRec
  pub collides : Vector2 Float → Rectangle Float → Bool
  -- TextFormat with one `%u`
  pub format_unsigned : Text → ℕ → Text

-- a - b, an `int`
abbrev pub minus : ℕ → ℕ → ℤ
minus a b = if leb b a then pos (a - b) else negsuc (b - a - 1)

-- The calls that draw or make textures. A font is the id of its texture.
pub data Call (F : Type 0) : Type 0 where
  begin_drawing end_drawing : Call F
  clear_background : Color → Call F
  draw_text : Text → ℤ → ℤ → ℕ → Color → Call F
  draw_text_ex : ℕ → Text → Vector2 F → ℕ → ℕ → Color → Call F
  draw_texture_pro : Texture → Rectangle F → Rectangle F → Vector2 F → F → Color → Call F
  draw_rectangle_rec : Rectangle F → Color → Call F
  gen_image_color : ℕ → ℕ → Color → Call F
  image_draw_rectangle_rec : Rectangle F → Color → Call F
  load_texture_from_image unload_image set_texture_filter_bilinear : ℕ → Call F

-- What raylib reports in a frame: the window, the mouse and its left button, the queue of typed
-- characters, the backspace key, the time; and what it returns when it loads: the id of a font's
-- texture (0 on failure), that of the default font, and that of a new texture.
pub record Screen (F : Type 0) : Type 0 where
  pub width : ℕ
  pub height : ℕ
  pub mouse : Vector2 F
  pub down : Bool
  pub went_down : Bool
  pub went_up : Bool
  pub typed : List ℕ
  pub backspace : Bool
  pub now : ℕ
  pub loaded_font : ℕ
  pub default_font : ℕ
  pub new_texture : ℕ
