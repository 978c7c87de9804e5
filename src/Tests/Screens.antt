-- ===== src/Tests/Screens.antt =====
-- A concrete raylib, whose `float` are whole numbers, a window and a text box.
use net_pixeld.Prelude.{ℕ, ◌+◌, ◌-◌, ◌*◌, ◌/◌, Bool, true, false, [], ◌∷◌, ltb, leb, length, ◌&&◌}
use net_pixeld.Prelude.Int.{ℤ, pos, negsuc}
use net_pixeld.Client.Raylib.{Raylib, Vector2, Rectangle, Screen}
use net_pixeld.Client.Font.{CFont}
use net_pixeld.Client.Textbox.{TextBox}
use net_pixeld.Client.Scenes.{LoginScene, new_login_scene}

abbrev whole : ℤ → ℕ
whole (pos n) = n
whole (negsuc n) = 0

abbrev inside : Vector2 ℕ → Rectangle ℕ → Bool
inside p r = leb r.x p.x && (ltb p.x (r.x + r.width) && (leb r.y p.y && ltb p.y (r.y + r.height)))

abbrev pub whole_pixels : Raylib
whole_pixels = record {
  Float = ℕ;
  number = whole;
  hundredths = λ n. n / 100;
  add = λ a b. a + b;
  sub = λ a b. a - b;
  mul = λ a b. a * b;
  div = λ a b. a / b;
  above = λ a b. ltb b a;
  truncate = λ a. pos a;
  measure = λ font text size spacing. record { x = length text * (size + spacing); y = size };
  measure_default = λ text size. pos (length text * size);
  collides = inside;
  format_unsigned = λ text n. text;
}

-- A click in the upper text box, and "A~B" typed.
abbrev pub typing : Screen ℕ
typing = record {
  width = 800;
  height = 450;
  mouse = record { x = 400; y = 180 };
  down = true;
  went_down = true;
  went_up = false;
  typed = 65 ∷ 126 ∷ 66 ∷ [];
  backspace = false;
  now = 5;
  loaded_font = 3;
  default_font = 1;
  new_texture = 7;
}

abbrev pub empty_scene : LoginScene ℕ
empty_scene = new_login_scene whole_pixels typing

abbrev pub box_font : CFont
box_font = empty_scene.font

abbrev pub box : TextBox ℕ
box = empty_scene.username_textbox
