-- ===== src/Client/Textbox/Look.antt =====
-- The geometry and drawing of a text box, its constructor and its frame
-- (client/src/gui/Textbox.cpp).
use net_pixeld.Prelude.{
  ℕ, ◌+◌, ◌*◌, Bool, true, Option, none, some, List, [], ◌∷◌, ◌++◌, Text, codes, if◌then◌else◌,
  length,
}
use net_pixeld.Prelude.Int.{pos}
use net_pixeld.Client.Raylib.{
  Raylib, Vector2, Rectangle, Texture, Color, white, lightgray, gray, darkgray, black, red, Call,
  draw_text_ex, draw_texture_pro, gen_image_color, image_draw_rectangle_rec,
  load_texture_from_image, unload_image, Screen,
}
use net_pixeld.Client.Font.{CFont, set_font_size, set_font_spacing, get_font_size, get_font_spacing}
use net_pixeld.Client.Timer.{new_timer}
use net_pixeld.Client.Textbox.{
  TextBox, TextBoxState, not_active, hovered, active, Input, is_active, k_default_font_size,
  k_default_font_spacing, update_state, handle_input, update_output_text,
}

-- the number of an enumerator
abbrev pub number_of : TextBoxState → ℕ
number_of not_active = 0
number_of hovered = 1
number_of active = 2

-- TextBoxState::COUNT
abbrev pub count : ℕ
count = 3

abbrev pub k_default_width : ℕ
k_default_width = 180

abbrev pub k_default_height : ℕ
k_default_height = 36

-- SetFont: the box points to the given object in place of the old one.
abbrev pub set_font : CFont → CFont → CFont
set_font font old = font

module _ {F : Type 0} where
  unfoldable pub set_center : Vector2 F → TextBox F → TextBox F
  set_center center b = record b { position = center }

  unfoldable pub set_dimensions : Vector2 F → TextBox F → TextBox F
  set_dimensions dimensions b = record b { base_size = dimensions }

  unfoldable pub set_focus_animation : Bool → TextBox F → TextBox F
  set_focus_animation enabled b = record b { animate_focus = enabled }

  -- The first half of a frame: the focus, and what is typed into an active box.
  unfoldable pub accept : Input → TextBox F → TextBox F
  unfolding update_state handle_input
  accept i b =
      let focused = update_state i b in
      if is_active focused.state then handle_input i focused else focused

module _ (gl : Raylib) where
  open gl use {Float, number, hundredths, add, sub, mul, div, above, measure, collides}

  abbrev pub nat : ℕ → Float
  nat n = number (pos n)

  abbrev pub k_scale_hover : Float
  k_scale_hover = hundredths 105

  abbrev pub k_scale_speed : Float
  k_scale_speed = hundredths 15

  unfoldable pub transformed_bounds : TextBox Float → Rectangle Float
  transformed_bounds b =
      let w = mul b.base_size.x b.scale in
      let h = mul b.base_size.y b.scale in
      record {
        x = sub b.position.x (div w (nat 2));
        y = sub b.position.y (div h (nat 2));
        width = w;
        height = h;
      }

  abbrev target_scale : TextBoxState → Float
  target_scale not_active = nat 1
  target_scale _ = k_scale_hover

  unfoldable pub animate : TextBox Float → TextBox Float
  animate b =
      if b.animate_focus
      then record b { scale = add b.scale (mul (sub (target_scale b.state) b.scale) k_scale_speed) }
      else b

  -- the loop over the colours, from the i-th bar on
  abbrev bars : ℕ → List Color → List (Call Float)
  bars i [] = []
  bars i (c ∷ colors) =
      image_draw_rectangle_rec
        (record {
          x = nat 0;
          y = nat (i * k_default_height);
          width = nat k_default_width;
          height = nat k_default_height;
        })
        c
      ∷ bars (i + 1) colors

  -- `id` is that of the new texture, which has the image's dimensions.
  unfoldable pub create_fallback_texture : ℕ → List (Call Float) × Texture
  create_fallback_texture id =
      let colors = darkgray ∷ gray ∷ lightgray ∷ [] in
      let height = k_default_height * length colors in
      (
        gen_image_color k_default_width height black
            ∷ (bars 0 colors ++ load_texture_from_image id ∷ unload_image id ∷ []),
        record { id = id; width = k_default_width; height = height },
      )

  abbrev or_fallback : Option Texture → ℕ → Texture
  or_fallback none id = (create_fallback_texture id).1
  or_fallback (some texture) id = texture

  -- A given font is shared as it is; else the box has the blank font, at the default size.
  abbrev font_of : Option CFont → CFont → CFont
  font_of none blank =
      set_font_spacing k_default_font_spacing (set_font_size k_default_font_size blank)
  font_of (some font) blank = font

  -- the constructor: `blank` is a CFont made without a path
  unfoldable pub new_text_box :
      Option Texture → Option CFont → Bool → CFont → Screen Float → CFont × TextBox Float
  unfolding create_fallback_texture set_font_size set_font_spacing new_timer
  new_text_box texture font fx blank screen =
      let tex = or_fallback texture screen.new_texture in
      let frame_height = div (nat tex.height) (nat count) in
      (
        font_of font blank,
        record {
          texture = tex;
          fx = fx;
          played = 0;
          input_text = [];
          output_text = codes "-";
          position = record {
            x = div (nat screen.width) (nat 2);
            y = div (nat screen.height) (nat 2);
          };
          base_size = record { x = nat tex.width; y = frame_height };
          source_rec = record {
            x = nat 0;
            y = nat 0;
            width = nat tex.width;
            height = frame_height;
          };
          state = not_active;
          num_frames = count;
          frame_height = frame_height;
          scale = nat 1;
          animate_focus = true;
          showing_cursor = true;
          timer = new_timer screen.now;
        },
      )

  -- The text is wider than the box less 10 pixels, at a font size.
  abbrev pub too_wide : ℕ → Text → Float → ℕ → Bool
  too_wide font text width size =
      above (measure font text size k_default_font_spacing).x (sub width (nat 10))

  -- What a box sees of a frame; `keys` is the queue of typed characters.
  abbrev pub input_of : Screen Float → List ℕ → TextBox Float → Input
  input_of screen keys b = record {
    over = collides screen.mouse (transformed_bounds b);
    clicked = screen.went_down;
    typed = keys;
    backspace = screen.backspace;
    now = screen.now;
  }

  -- Update. An active box empties the queue of typed characters, so they are gone for the next box.
  unfoldable pub update :
      Screen Float → List ℕ → CFont → TextBox Float → List ℕ × CFont × TextBox Float
  unfolding transformed_bounds update_state accept update_output_text animate
  update screen keys font b =
      let i = input_of screen keys b in
      let typed = accept i b in
      let width = (transformed_bounds typed).width in
      let (fitted, shown) =
        update_output_text (too_wide font.texture_id typed.input_text width) i font typed in
      (if is_active (update_state i b).state then [] else keys, fitted, animate shown)

  -- Draw; the row of the texture is that of the state.
  unfoldable pub draw : CFont → TextBox Float → List (Call Float) × TextBox Float
  unfolding transformed_bounds get_font_size get_font_spacing
  draw font b =
      let source : Rectangle Float = record b.source_rec {
        y = mul (nat (number_of b.state)) b.frame_height;
      } in
      let bounds = transformed_bounds b in
      let size = get_font_size font in
      let spacing = get_font_spacing font in
      let text = measure font.texture_id b.output_text size spacing in
      let position : Vector2 Float = record {
        x = add bounds.x (div (sub bounds.width text.x) (nat 2));
        y = add bounds.y (div (sub bounds.height text.y) (nat 2));
      } in
      (
        draw_texture_pro b.texture source bounds (record { x = nat 0; y = nat 0 }) (nat 0) white
            ∷ draw_text_ex font.texture_id b.output_text position size spacing red
            ∷ [],
        record b { source_rec = source },
      )
