-- ===== src/Protocol/Framing.antt =====
-- Line framing, as Session.cpp and NetworkClient.cpp read it: `read_until` waits for a line break,
-- `std::getline` takes the line, and a trailing carriage return is dropped.
use net_pixeld.Prelude.{
  ◌≤◌, ◌≡◌, refl, ap, Bool, true, false, [], ◌∷◌, ◌++◌, arith, All, Text, ◌==◌, nat_eq,
  if◌then◌else◌,
}

-- the condition on which `read_until(…, '\n')` completes
unfoldable pub has_line : Text → Bool
has_line [] = false
has_line (c ∷ s) = if c == 10 then true else has_line s

-- std::getline(is, line): the line, and what is left in the stream
unfoldable pub getline : Text → Text × Text
getline [] = ([], [])
getline (c ∷ s) = let (line, rest) = getline s in if c == 10 then ([], s) else (c ∷ line, rest)

-- if (!line.empty() && line.back() == '\r') line.pop_back();
unfoldable pub strip_cr : Text → Text
strip_cr [] = []
strip_cr (c ∷ []) = if c == 13 then [] else c ∷ []
strip_cr (c ∷ d ∷ s) = c ∷ strip_cr (d ∷ s)

abbrev pub IsPrintable : Text → Type 0
IsPrintable = All (λ c. 32 ≤ c)

pub has_line-append : (line rest : Text) → has_line (line ++ 10 ∷ rest) ≡ true
unfolding has_line
has_line-append [] rest = refl
has_line-append (c ∷ line) rest = ground (arith, has_line-append line rest)

pub getline-append :
    (line rest : Text) → IsPrintable line → getline (line ++ 10 ∷ rest) ≡ (line, rest)
unfolding getline
getline-append [] rest p = refl
getline-append (c ∷ line) rest p = ground (arith, getline-append line rest p.1)

pub strip_cr-printable : (line : Text) → IsPrintable line → strip_cr line ≡ line
unfolding strip_cr
strip_cr-printable [] p = refl
strip_cr-printable (c ∷ []) p = ground arith
strip_cr-printable (c ∷ d ∷ s) p = ap (◌∷◌ c) (strip_cr-printable (d ∷ s) p.1)
