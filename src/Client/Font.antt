-- ===== src/Client/Font.antt =====
-- CFont (client/src/font/CFont.cpp). Sizes and spacings are whole numbers throughout the client, which
-- a `float` holds exactly.
use net_pixeld.Prelude.{ℕ, eqb, List, [], ◌∷◌, Text, if◌then◌else◌}
use net_pixeld.Client.Raylib.{Call, set_texture_filter_bilinear}

-- The base class raylib::Font is the id of its texture.
pub record CFont : Type 0 where
  pub texture_id : ℕ
  pub path : Text
  pub spacing : ℕ
  pub size : ℕ

-- `CFont() = default`: spacing and size are whatever the memory held.
unfoldable pub blank_font : ℕ → ℕ → ℕ → CFont
blank_font default_font spacing size = record {
  texture_id = default_font;
  path = [];
  spacing = spacing;
  size = size;
}

-- `loaded` is the texture id of what LoadFontEx returns; on 0 an exception is thrown, caught and
-- logged, and the base class keeps the default font.
unfoldable pub load_font : {F : Type 0} → Text → ℕ → ℕ → List (Call F) × CFont
load_font path loaded default_font =
    if eqb loaded 0
    then ([], record { texture_id = default_font; path = path; spacing = 1; size = 20 })
    else (
      set_texture_filter_bilinear loaded ∷ [],
      record { texture_id = loaded; path = path; spacing = 1; size = 20 },
    )

unfoldable pub set_font_spacing : ℕ → CFont → CFont
set_font_spacing spacing f = record f { spacing = spacing }

unfoldable pub set_font_size : ℕ → CFont → CFont
set_font_size size f = record f { size = size }

unfoldable pub get_font_spacing : CFont → ℕ
get_font_spacing f = f.spacing

unfoldable pub get_font_size : CFont → ℕ
get_font_size f = f.size
