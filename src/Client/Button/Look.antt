-- ===== src/Client/Button/Look.antt =====
-- What a button sees of the mouse, and its drawing (client/src/gui/Button.cpp).
use net_pixeld.Prelude.{ℕ, Option, none, some, List, [], ◌∷◌, Text, is_empty, if◌then◌else◌}
use net_pixeld.Prelude.Int.{pos}
use net_pixeld.Client.Raylib.{
  Raylib, Vector2, Texture, Color, white, gray, darkgray, lightgray, black, Call, draw_texture_pro,
  draw_rectangle_rec, draw_text, draw_text_ex, Screen,
}
use net_pixeld.Client.Button.{Button, State, normal, hovered, pressed, Mouse}

abbrev texture_of : {F : Type 0} → Button F → State → Option Texture
texture_of b normal = b.tex_normal
texture_of b hovered = b.tex_hover
texture_of b pressed = b.tex_pressed

abbrev color_of : State → Color
color_of normal = gray
color_of hovered = darkgray
color_of pressed = lightgray

module _ (gl : Raylib) where
  open gl use {Float, number, sub, add, div, measure, measure_default, collides, truncate}

  -- the locals at the start of `Button::Update`
  abbrev pub mouse_of : Screen Float → Button Float → Mouse
  mouse_of screen b = record {
    hovering = collides screen.mouse b.bounds;
    down = screen.down;
    went_down = screen.went_down;
    went_up = screen.went_up;
  }

  abbrev background : Option Texture → Button Float → Call Float
  background (some t) b =
      draw_texture_pro t
        (record {
          x = number (pos 0);
          y = number (pos 0);
          width = number (pos t.width);
          height = number (pos t.height);
        })
        b.bounds (record { x = number (pos 0); y = number (pos 0) }) (number (pos 0)) white
  background none b = draw_rectangle_rec b.bounds (color_of b.state)

  abbrev text_size : Option ℕ → Text → Vector2 Float
  text_size (some font) text = measure font text 20 1
  text_size none text = record { x = number (measure_default text 20); y = number (pos 20) }

  abbrev label_at : Option ℕ → Text → Vector2 Float → Call Float
  label_at (some font) text p = draw_text_ex font text p 20 1 black
  label_at none text p = draw_text text (truncate p.x) (truncate p.y) 20 black

  -- the text in the middle of the bounds
  abbrev label : Button Float → Call Float
  label b =
      let size = text_size b.font b.text in
      let position : Vector2 Float = record {
        x = add b.bounds.x (div (sub b.bounds.width size.x) (number (pos 2)));
        y = add b.bounds.y (div (sub b.bounds.height size.y) (number (pos 2)));
      } in
      label_at b.font b.text position

  unfoldable pub draw : Button Float → List (Call Float)
  draw b = background (texture_of b b.state) b ∷ (if is_empty b.text then [] else label b ∷ [])
