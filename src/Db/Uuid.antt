-- ===== src/Db/Uuid.antt =====
-- `generateUuid` of server/inc/JsonDB.hpp: two 64-bit draws, each as sixteen hexadecimal digits.
use mathlib.Core.List.{append_assoc}
use native.Mathlib.Nat.{pow-suc}
use net_pixeld.Prelude.{
  ℕ, zero, suc, ◌+◌, ◌-◌, ◌*◌, ◌/◌, ◌%◌, ◌^◌, ◌<◌, ◌≡◌, refl, sym, ap, ◌∙◌, inl, inr, false, List,
  [], ◌∷◌, ◌++◌, arith, All, All-append, Text, ltb, if◌then◌else◌, length, length-append, replicate,
  Bool-cases,
}

-- a digit of `std::hex`
unfoldable pub hex_digit : ℕ → ℕ
hex_digit d = if ltb d 10 then b'0' + d else b'a' + (d - 10)

-- `os << std::hex << n`, at most `fuel` digits
unfoldable pub hex_digits : ℕ → ℕ → Text
unfolding hex_digit
hex_digits zero n = []
hex_digits (suc fuel) n =
    let more = hex_digits fuel (n / 16) ++ hex_digit (n % 16) ∷ [] in
    if ltb n 16 then hex_digit n ∷ [] else more

-- with `std::setw(16) << std::setfill('0')`
unfoldable pub hex16 : ℕ → Text
unfolding hex_digits
hex16 n = let digits = hex_digits 16 n in replicate (16 - length digits) b'0' ++ digits

-- The source of randomness: `draw i` is the i-th result of `dist(gen)`.
pub record Generator : Type 0 where
  pub draw : ℕ → ℕ
  pub drawn : ℕ

unfoldable pub generate_uuid : Generator → Text × Generator
unfolding hex16
generate_uuid g =
    let a = g.draw g.drawn in
    let b = g.draw (g.drawn + 1) in (hex16 a ++ hex16 b, record g { drawn = g.drawn + 2 })

-- exactly `k` digits of n
abbrev fixed : ℕ → ℕ → Text
fixed zero n = []
fixed (suc k) n = fixed k (n / 16) ++ hex_digit (n % 16) ∷ []

digit_value : ℕ → ℕ
digit_value c = if ltb c b'a' then c - b'0' else c - b'a' + 10

digit_value-hex_digit : (d : ℕ) → d < 16 → digit_value (hex_digit d) ≡ d
unfolding digit_value hex_digit
digit_value-hex_digit d h = ground arith

-- the number that a text of hexadecimal digits denotes, read from the left
of_hex : ℕ → Text → ℕ
unfolding digit_value
of_hex acc [] = acc
of_hex acc (c ∷ s) = of_hex (acc * 16 + digit_value c) s

of_hex-append : (acc : ℕ) (s t : Text) → of_hex acc (s ++ t) ≡ of_hex (of_hex acc s) t
unfolding of_hex
of_hex-append acc [] t = refl
of_hex-append acc (c ∷ s) t = of_hex-append (acc * 16 + digit_value c) s t

below-div : (k n : ℕ) → n < 16 ^ suc k → n / 16 < 16 ^ k
below-div k n h = let e = pow-suc 16 k in omega arith

of_hex-fixed : (k n : ℕ) → n < 16 ^ k → of_hex 0 (fixed k n) ≡ n
unfolding of_hex
of_hex-fixed zero n h = omega arith
of_hex-fixed (suc k) n h =
    rw
      (
        of_hex-append 0 (fixed k (n / 16)) (hex_digit (n % 16) ∷ []),
        of_hex-fixed k (n / 16) (below-div k n h),
        digit_value-hex_digit (n % 16) (omega arith),
      )
      (omega arith)

length-fixed : (k n : ℕ) → length (fixed k n) ≡ k
length-fixed zero n = refl
length-fixed (suc k) n =
    omega
      (arith, length-append (fixed k (n / 16)) (hex_digit (n % 16) ∷ []), length-fixed k (n / 16))

replicate_snoc {ℓ} : {A : Type ℓ} (k : ℕ) (a : A) → replicate k a ++ a ∷ [] ≡ a ∷ replicate k a
replicate_snoc zero a = refl
replicate_snoc (suc k) a = ap (◌∷◌ a) (replicate_snoc k a)

fixed-zero : (k : ℕ) → fixed k 0 ≡ replicate k b'0'
unfolding hex_digit
fixed-zero zero = refl
fixed-zero (suc k) = rw (fixed-zero k) (replicate_snoc k b'0')

abbrev pad : ℕ → Text → Text
pad k s = replicate (k - length s) b'0' ++ s

pad_snoc : (k : ℕ) (s : Text) (c : ℕ) → pad (suc k) (s ++ c ∷ []) ≡ pad k s ++ c ∷ []
pad_snoc k s c =
    let e : suc k - length (s ++ c ∷ []) ≡ k - length s = omega (arith, length-append s (c ∷ [])) in
    rw e (sym (append_assoc (replicate (k - length s) b'0') s (c ∷ [])))

wide : (k n : ℕ) → n < 16 ^ suc k → ltb n 16 ≡ false → 0 < k
wide zero n h e = ground arith
wide (suc k) n h e = omega arith

pad-hex_digits : (k n : ℕ) → n < 16 ^ k → 0 < k → pad k (hex_digits k n) ≡ fixed k n
unfolding hex_digits
pad-hex_digits zero n h p = absurd (omega arith)
pad-hex_digits (suc k) n h p = elim (Bool-cases (ltb n 16)) [
  | inl small ↦
      let low : n / 16 ≡ 0 = ground arith in
      let same : n % 16 ≡ n = ground arith in
      let all : suc k - 1 ≡ k = omega arith in rw (small, low, same, all, fixed-zero k)
  | inr large ↦
      let shorter = below-div k n h in
      let more : 0 < k = wide k n h large in
      rw (
        large,
        pad_snoc k (hex_digits k (n / 16)) (hex_digit (n % 16)),
        pad-hex_digits k (n / 16) shorter more,
      )
]

hex16-fixed : (n : ℕ) → n < 2 ^ 64 → hex16 n ≡ fixed 16 n
unfolding hex16
hex16-fixed n h = pad-hex_digits 16 n h (omega arith)

pub length-hex16 : (n : ℕ) → n < 2 ^ 64 → length (hex16 n) ≡ 16
length-hex16 n h = ap length (hex16-fixed n h) ∙ length-fixed 16 n

of_hex-hex16 : (n : ℕ) → n < 2 ^ 64 → of_hex 0 (hex16 n) ≡ n
of_hex-hex16 n h = rw (hex16-fixed n h) (of_hex-fixed 16 n h)

append-injective {ℓ} :
    {A : Type ℓ} (s t u v : List A) → length s ≡ length t → s ++ u ≡ t ++ v → (s ≡ t) × (u ≡ v)
append-injective [] [] u v n e = (refl, e)
append-injective [] (b ∷ t) u v n e = absurd (omega arith)
append-injective (a ∷ s) [] u v n e = absurd (omega arith)
append-injective (a ∷ s) (b ∷ t) u v n e = ground (arith, append-injective s t u v (omega arith))

hex16-injective : (a b : ℕ) → a < 2 ^ 64 → b < 2 ^ 64 → hex16 a ≡ hex16 b → a ≡ b
hex16-injective a b ha hb e = sym (of_hex-hex16 a ha) ∙ ap (of_hex 0) e ∙ of_hex-hex16 b hb

-- The draws are `uint64_t`.
abbrev pub InRange : Generator → Type 0
InRange g = (i : ℕ) → g.draw i < 2 ^ 64

-- For draws of 64 bits a uuid has 32 characters.
pub length-generate_uuid : (g : Generator) → InRange g → length (generate_uuid g).0 ≡ 32
unfolding generate_uuid
length-generate_uuid g r = omega (
  arith,
  length-append (hex16 (g.draw g.drawn)) (hex16 (g.draw (g.drawn + 1))),
  length-hex16 (g.draw g.drawn) (r g.drawn),
  length-hex16 (g.draw (g.drawn + 1)) (r (g.drawn + 1)),
)

-- For draws of 64 bits, two uuids are equal only if both of their draws were equal.
pub generate_uuid-injective :
    (g h : Generator)
    → InRange g
    → InRange h
    → (generate_uuid g).0 ≡ (generate_uuid h).0
    → (g.draw g.drawn ≡ h.draw h.drawn) × (g.draw (g.drawn + 1) ≡ h.draw (h.drawn + 1))
unfolding generate_uuid
generate_uuid-injective g h rg rh e =
    let widths =
      length-hex16 (g.draw g.drawn) (rg g.drawn)
      ∙ sym (length-hex16 (h.draw h.drawn) (rh h.drawn)) in
    let parts = append-injective (hex16 (g.draw g.drawn)) (hex16 (h.draw h.drawn)) _ _ widths e in
    (
      hex16-injective _ _ (rg g.drawn) (rh h.drawn) parts.0,
      hex16-injective _ _ (rg (g.drawn + 1)) (rh (h.drawn + 1)) parts.1,
    )

-- The digits are ASCII.
abbrev IsAscii : Text → Type 0
IsAscii = All (λ c. c < 128)

hex_digit-IsAscii : (d : ℕ) → d < 16 → hex_digit d < 128
unfolding hex_digit
hex_digit-IsAscii d h = ground arith

fixed-IsAscii : (k n : ℕ) → IsAscii (fixed k n)
fixed-IsAscii zero n = tt
fixed-IsAscii (suc k) n =
    All-append _ (fixed k (n / 16)) _ (fixed-IsAscii k (n / 16))
      (hex_digit-IsAscii (n % 16) (omega arith), tt)

hex16-IsAscii : (n : ℕ) → n < 2 ^ 64 → IsAscii (hex16 n)
hex16-IsAscii n h = rw (hex16-fixed n h) (fixed-IsAscii 16 n)

-- A uuid can be put into JSON.
pub generate_uuid-IsAscii : (g : Generator) → InRange g → All (λ c. c < 128) (generate_uuid g).0
unfolding generate_uuid
generate_uuid-IsAscii g r =
    All-append _ (hex16 (g.draw g.drawn)) _ (hex16-IsAscii _ (r g.drawn))
      (hex16-IsAscii _ (r (g.drawn + 1)))
