-- ===== src/Logger/Filenames.antt =====
-- The name that `getFilename` finds in a path (common/Logger.hpp).
use net_pixeld.Prelude.{
  ℕ, suc, ◌+◌, ◌≡◌, ◌≢◌, refl, sym, ap, ◌∙◌, true, false, none, some, [], ◌∷◌, ◌++◌, arith, All,
  Text, ◌==◌, nat_eq, if◌then◌else◌, ltb, drop, drop-append, length, Option-cases, inl, inr, ◌⊎◌,
}
use net_pixeld.Logger.{strrchr, after, get_filename}

-- a name without separators
abbrev pub IsName : Text → Type 0
IsName = All (λ c. (c ≢ b'/') × (c ≢ b'\\'))

strrchr-name : (c : ℕ) (s : Text) → All (λ d. d ≢ c) s → strrchr c s ≡ none
unfolding strrchr
strrchr-name c [] h = refl
strrchr-name c (x ∷ s) h = ground (arith, strrchr-name c s h.1, h.0)

names : (s : Text) → IsName s → All (λ d. d ≢ b'/') s × All (λ d. d ≢ b'\\') s
names [] h = (tt, tt)
names (x ∷ s) h = let (a, b) = names s h.1 in ((h.0.0, a), (h.0.1, b))

-- The last `c` of a path, from before a separator.
strrchr-append :
    (c sep : ℕ) (dir name : Text)
    → strrchr c name ≡ none
    → strrchr c (dir ++ sep ∷ name) ≡ (if sep == c then some (length dir) else strrchr c dir)
unfolding strrchr
strrchr-append c sep [] name h = ground (arith, h)
strrchr-append c sep (x ∷ dir) name h = ground (arith, strrchr-append c sep dir name h)

strrchr-lt : (c i : ℕ) (s : Text) → strrchr c s ≡ some i → ltb i (length s) ≡ true
unfolding strrchr
strrchr-lt c i [] h = cc h
strrchr-lt c i (x ∷ s) h = elim (Option-cases (strrchr c s)) [
  | inl e ↦ ground (arith, e, h)
  | inr (j, e) ↦ ground (arith, e, h, strrchr-lt c j s e)
]

drop-length :
    (dir : Text) (sep : ℕ) (name : Text) → drop (length dir + 1) (dir ++ sep ∷ name) ≡ name
drop-length dir sep name =
    let n : length dir + 1 ≡ suc (length dir) = omega arith in
    ap (λ k. drop k (dir ++ sep ∷ name)) n ∙ drop-append dir name sep

later-after : (c : ℕ) (dir : Text) → after (some (length dir)) (strrchr c dir) ≡ true
later-after c dir = elim (Option-cases (strrchr c dir)) [
  | inl e ↦ rw e
  | inr (i, e) ↦ rw e (strrchr-lt c i dir e)
]

after-later : (c : ℕ) (dir : Text) → after (strrchr c dir) (some (length dir)) ≡ false
after-later c dir = elim (Option-cases (strrchr c dir)) [
  | inl e ↦ rw e
  | inr (i, e) ↦ ground (arith, e, strrchr-lt c i dir e)
]

-- getFilename of a path that ends in a separator of either kind and a name without separators is
-- that name; a name without separators is its own.
pub get_filename_lem :
    (dir : Text) (sep : ℕ) (name : Text)
    → (sep ≡ b'/') ⊎ (sep ≡ b'\\')
    → IsName name
    → (get_filename (dir ++ sep ∷ name) ≡ name) × (get_filename name ≡ name)
unfolding get_filename
get_filename_lem dir sep name s h =
    let (slashes, backs) = names name h in
    let no_slash = strrchr-name b'/' name slashes in
    let no_back = strrchr-name b'\\' name backs in
    let slash = strrchr-append b'/' sep dir name no_slash in
    let back = strrchr-append b'\\' sep dir name no_back in
    let found = drop-length dir sep name in
    let alone : get_filename name ≡ name = rw (no_slash, no_back) in
    elim s [
      | inl e ↦ (
        rw (slash, back, e, later-after b'\\' dir)
            (ap (λ c. drop (length dir + 1) (dir ++ c ∷ name)) (sym e) ∙ found),
        alone,
      )
      | inr e ↦ (
        rw (slash, back, e, after-later b'/' dir)
            (ap (λ c. drop (length dir + 1) (dir ++ c ∷ name)) (sym e) ∙ found),
        alone,
      )
    ]
