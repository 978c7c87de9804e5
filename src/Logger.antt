-- ===== src/Logger.antt =====
-- common/Logger.hpp: `getFilename` and the logging macros. The macros are the line that they print, and where.
pub mod Filenames
use net_pixeld.Prelude.{
  ℕ, zero, suc, ◌+◌, ◌/◌, ◌%◌, ◌++◌, codes, Bool, true, false, Option, none, some, List, [], ◌∷◌,
  Text, ◌==◌, nat_eq, if◌then◌else◌, ltb, drop,
}

-- std::strrchr(text, c): the position of the last `c`, or the null pointer
unfoldable pub strrchr : ℕ → Text → Option ℕ
strrchr c [] = none
strrchr c (x ∷ s) = elim (strrchr c s) [
  | none ↦ if x == c then some 0 else none
  | some i ↦ some (suc i)
]

-- `a > b` on pointers into one text; null is below every other pointer
abbrev pub after : Option ℕ → Option ℕ → Bool
after none b = false
after (some i) none = true
after (some i) (some j) = ltb j i

abbrev pub behind : Option ℕ → Text → Text
behind none path = path
behind (some i) path = drop (i + 1) path

unfoldable pub get_filename : Text → Text
unfolding strrchr
get_filename path =
    let slash = strrchr b'/' path in
    let back = strrchr b'\\' path in behind (if after slash back then slash else back) path

-- `%d` of a number
abbrev digits : ℕ → ℕ → Text
digits zero n = []
digits (suc fuel) n =
    let rest = digits fuel (n / 10) in
    if ltb n 10 then (b'0' + n) ∷ [] else rest ++ (b'0' + n % 10) ∷ []

pub data Stream : Type 0 where
  standard_output standard_error : Stream

-- "[level] %s:%d: message\n"
abbrev log_line : Text → Text → ℕ → Text → Text
log_line level file line message =
    level
    ++ (get_filename file
        ++ (codes ":" ++ (digits (line + 1) line ++ (codes ": " ++ (message ++ 10 ∷ [])))))

-- `message` is the text that the format and the arguments of the caller give.
abbrev pub log_error : Text → ℕ → Text → Stream × Text
log_error file line message = (standard_error, log_line (codes "[ERROR] ") file line message)

abbrev pub log_info : Text → ℕ → Text → Stream × Text
log_info file line message = (standard_output, log_line (codes "[INFO] ") file line message)

abbrev pub log_debug : Text → ℕ → Text → Stream × Text
log_debug file line message = (standard_output, log_line (codes "[DEBUG] ") file line message)
