-- ===== src/Client/Textbox/Typing.antt =====
-- What a text box holds and how its font shrinks (client/src/gui/Textbox.cpp).
use net_pixeld.Prelude.{
  ℕ, zero, suc, ◌+◌, ◌-◌, ◌≤◌, ◌<◌, ◌≡◌, refl, sym, ap₂, subst, ◌⊎◌, inl, inr, Bool, true, false,
  not, List, [], ◌∷◌, ◌++◌, ◌&&◌, All, All-append, arith, Text, is_empty, leb, ltb, Bool-cases,
  length, length-append, if◌then◌else◌,
}
use net_pixeld.Client.Raylib.{Raylib, Screen, Vector2}
use net_pixeld.Client.Font.{CFont, set_font_size}
use net_pixeld.Client.Textbox.{
  TextBox, Input, k_default_font_size, type_keys, pop_back, handle_input, update_state,
  update_output_text, shrink, is_active,
}
use net_pixeld.Client.Textbox.Look.{accept, update, transformed_bounds, too_wide, animate, input_of}

-- a character that a text box takes: from the space to '}'
abbrev pub IsTypeable : Text → Type 0
IsTypeable = All (λ c. (32 ≤ c) × (c ≤ 125))

type_keys-IsTypeable :
    (fx : Bool) (keys : List ℕ) (s : Text) (plays : ℕ)
    → IsTypeable s
    → IsTypeable (type_keys fx keys (s, plays)).0
unfolding type_keys
type_keys-IsTypeable fx [] s plays h = h
type_keys-IsTypeable fx (zero ∷ keys) s plays h = h
type_keys-IsTypeable fx (suc k ∷ keys) s plays h =
    elim (Bool-cases (leb 32 (suc k) && leb (suc k) 125)) [
      | inl e ↦
          rw (e, type_keys)
            (type_keys-IsTypeable fx keys (s ++ suc k ∷ []) (if fx then plays + 1 else plays)
              (All-append _ s (suc k ∷ []) h (ground (arith, e), tt)))
      | inr e ↦ rw (e, type_keys) (type_keys-IsTypeable fx keys s plays h)
    ]

-- A set sound is played once for each character that is taken.
type_keys_plays :
    (keys : List ℕ) (s : Text) (plays : ℕ)
    → (type_keys true keys (s, plays)).1 + length s
      ≡ plays + length (type_keys true keys (s, plays)).0
unfolding type_keys
type_keys_plays [] s plays = refl
type_keys_plays (zero ∷ keys) s plays = refl
type_keys_plays (suc k ∷ keys) s plays = elim (Bool-cases (leb 32 (suc k) && leb (suc k) 125)) [
  | inl e ↦
      let later = type_keys_plays keys (s ++ suc k ∷ []) (plays + 1) in
      let more : length (s ++ suc k ∷ []) ≡ length s + 1 = length-append s (suc k ∷ []) in
      rw (e, type_keys) (omega (arith, later, more))
  | inr e ↦ rw (e, type_keys) (type_keys_plays keys s plays)
]

pop_back-IsTypeable : (s : Text) → IsTypeable s → IsTypeable (pop_back s)
pop_back-IsTypeable [] h = h
pop_back-IsTypeable (c ∷ []) h = tt
pop_back-IsTypeable (c ∷ d ∷ s) h = (h.0, pop_back-IsTypeable (d ∷ s) h.1)

handle_input-IsTypeable :
    {F : Type 0} (i : Input) (b : TextBox F)
    → IsTypeable b.input_text
    → IsTypeable (handle_input i b).input_text
unfolding handle_input
handle_input-IsTypeable i b h =
    let typed = type_keys-IsTypeable b.fx i.typed b.input_text b.played h in
    elim (Bool-cases
      (i.backspace && not (is_empty (type_keys b.fx i.typed (b.input_text, b.played)).0))) [
        | inl e ↦ rw e (pop_back-IsTypeable _ typed)
        | inr e ↦ rw e typed
      ]

-- The loop over the font size has stopped: the size is from 8 to where it started, the text fits or
-- the size is 8, and it did not fit at any size passed over.
pub record IsFitted (too_wide : ℕ → Bool) (from size : ℕ) : Type 0 where
  pub below : size ≤ from
  pub least : 8 ≤ size
  pub stops : (too_wide size ≡ false) ⊎ (size ≡ 8)
  pub largest : (n : ℕ) → size < n → n ≤ from → too_wide n ≡ true

shrink_lem :
    (fuel : ℕ) (too_wide : ℕ → Bool) (size : ℕ)
    → 8 ≤ size
    → size ≤ fuel + 8
    → IsFitted too_wide size (shrink fuel too_wide size)
unfolding shrink
shrink_lem zero too_wide size low h = record {
  below = omega arith;
  least = low;
  stops = inr (omega arith);
  largest = λ n above upto. absurd (omega arith);
}
shrink_lem (suc fuel) too_wide size low h = elim (Bool-cases (too_wide size && ltb 8 size)) [
  | inl e ↦
      let above8 : 8 < size = ground (arith, e) in
      let f = shrink_lem fuel too_wide (size - 1) (omega (arith, above8)) (omega arith) in
      rw e (record {
        below = omega (arith, f.below);
        least = f.least;
        stops = f.stops;
        largest = λ n above upto. elim (Bool-cases (ltb n size)) [
          | inl less ↦ f.largest n above (ground (arith, less))
          | inr same ↦ let at : n ≡ size = ground (arith, same) in rw at (ground (arith, e))
        ];
      })
  | inr e ↦ rw e (record {
    below = omega arith;
    least = low;
    stops = ground (arith, e);
    largest = λ n above upto. absurd (omega arith);
  })
]

accept-IsTypeable :
    {F : Type 0} (i : Input) (b : TextBox F)
    → IsTypeable b.input_text
    → IsTypeable (accept i b).input_text
unfolding accept update_state
accept-IsTypeable i b h = elim (Bool-cases (is_active (update_state i b).state)) [
  | inl e ↦ rw e (handle_input-IsTypeable i (update_state i b) h)
  | inr e ↦ rw e h
]

-- Typing does not move a box.
accept_bounds :
    {F : Type 0} (i : Input) (b : TextBox F)
    → ((accept i b).base_size ≡ b.base_size) × ((accept i b).scale ≡ b.scale)
unfolding accept update_state handle_input
accept_bounds i b = elim (Bool-cases (is_active (update_state i b).state)) [
  | inl e ↦ rw e (refl, refl)
  | inr e ↦ rw e (refl, refl)
]

module _ (gl : Raylib) where
  animate-input_text : (b : TextBox gl.Float) → (animate gl b).input_text ≡ b.input_text
  unfolding animate
  animate-input_text b = elim (Bool-cases b.animate_focus) [ inl e ↦ rw e | inr e ↦ rw e ]

  module _ (screen : Screen gl.Float) (keys : List ℕ) (font : CFont) (b : TextBox gl.Float) where
    abbrev accepted : TextBox gl.Float
    accepted = accept (input_of gl screen keys b) b

    update-input_text : (update gl screen keys font b).2.input_text ≡ accepted.input_text
    unfolding update update_output_text
    update-input_text = animate-input_text _

    same_width : (transformed_bounds gl accepted).width ≡ (transformed_bounds gl b).width
    unfolding transformed_bounds
    same_width =
        let (size, scale) = accept_bounds (input_of gl screen keys b) b in
        ap₂ (λ (z : Vector2 gl.Float) s. gl.mul z.x s) size scale

    -- After a frame of a text box the font has the largest size from 20 down to 8 at which the text
    -- fits, or 8 where it fits at none.
    pub update-IsFitted :
        IsFitted
          (too_wide gl font.texture_id
            (update gl screen keys font b).2.input_text
            (transformed_bounds gl b).width)
          k_default_font_size
          (update gl screen keys font b).1.size
    unfolding update update_output_text set_font_size
    update-IsFitted =
        let text = update-input_text in
        let fitted =
          shrink_lem 20
            (too_wide gl font.texture_id accepted.input_text (transformed_bounds gl accepted).width)
            20 (omega arith) (omega arith) in
        subst
          (λ t.
            IsFitted (too_wide gl font.texture_id t (transformed_bounds gl b).width) 20
              (update gl screen keys font b).1.size)
          (sym text)
          (subst
            (λ w.
              IsFitted (too_wide gl font.texture_id accepted.input_text w) 20
                (update gl screen keys font b).1.size)
            same_width fitted)

    -- A frame keeps the text of a box within the characters from the space to the closing brace.
    pub update-IsTypeable :
        IsTypeable b.input_text → IsTypeable (update gl screen keys font b).2.input_text
    update-IsTypeable h =
        subst IsTypeable (sym update-input_text) (accept-IsTypeable (input_of gl screen keys b) b h)
