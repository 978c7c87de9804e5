-- ===== src/Client/Scenes/Boxes.antt =====
-- The two text boxes of the login scene (client/src/scenes/LoginScene.cpp): what they hold, and the
-- font object that they share.
use net_pixeld.Prelude.{ℕ, ◌≡◌, refl, subst, List}
use net_pixeld.Client.Raylib.{Raylib, Screen}
use net_pixeld.Client.Font.{CFont, set_font_size, set_font_spacing}
use net_pixeld.Client.Textbox.{TextBox, k_default_font_size, get_text, update_output_text}
use net_pixeld.Client.Textbox.Look.{
  update, too_wide, transformed_bounds, set_center, set_dimensions,
}
use net_pixeld.Client.Textbox.Typing.{IsTypeable, IsFitted, update-IsTypeable, update-IsFitted}
use net_pixeld.Client.Scenes.{LoginScene, place, update_login}

texture_id-update :
    (gl : Raylib) (screen : Screen gl.Float) (keys : List ℕ) (font : CFont) (b : TextBox gl.Float)
    → (update gl screen keys font b).1.texture_id ≡ font.texture_id
unfolding update update_output_text set_font_size set_font_spacing
texture_id-update gl screen keys font b = refl

module _ (gl : Raylib) (screen : Screen gl.Float) (scene : LoginScene gl.Float) where
  -- A frame of the login scene sizes the font, which is one object for both text boxes, to the
  -- password in the lower box.
  pub update_login-IsFitted :
      IsFitted
        (too_wide gl scene.font.texture_id
          (update_login gl screen scene).1.pass
          (transformed_bounds gl (place gl screen scene).pass_textbox).width)
        k_default_font_size
        (update_login gl screen scene).1.font.size
  unfolding update_login get_text place
  update_login-IsFitted =
      let s = place gl screen scene in
      let first = update gl screen screen.typed s.font s.username_textbox in
      let fitted = update-IsFitted gl screen first.0 first.1 s.pass_textbox in
      let second = update gl screen first.0 first.1 s.pass_textbox in
      let width = (transformed_bounds gl s.pass_textbox).width in
      subst
        (λ n. IsFitted (too_wide gl n second.2.input_text width) k_default_font_size second.1.size)
        (texture_id-update gl screen screen.typed s.font s.username_textbox) fitted

  -- A frame of the login scene whose boxes hold characters from the space to the closing brace takes
  -- a name and a password of such characters.
  pub update_login-IsTypeable :
      IsTypeable scene.username_textbox.input_text
      → IsTypeable scene.pass_textbox.input_text
      → IsTypeable (update_login gl screen scene).1.username
        × IsTypeable (update_login gl screen scene).1.pass
  unfolding update_login get_text place set_center set_dimensions
  update_login-IsTypeable user pass =
      let s = place gl screen scene in
      let first = update gl screen screen.typed s.font s.username_textbox in
      (
        update-IsTypeable gl screen screen.typed s.font s.username_textbox user,
        update-IsTypeable gl screen first.0 first.1 s.pass_textbox pass,
      )
