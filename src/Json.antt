-- ===== src/Json.antt =====
-- The parts of nlohmann::json (common/json.hpp, another project's library) that the program calls:
-- values, `dump`, `parse`, member access and conversions, with the documented behaviour that the
-- program relies on. `none` is an exception of the library.
pub mod Tree
use net_pixeld.Prelude.{
  ℕ, ◌<◌, ◌≤◌, ◌^◌, ◌≡◌, Bool, Option, none, some, List, [], ◌∷◌, ◌++◌, All, Text, text_eq,
}
use net_pixeld.Prelude.Umap.{Umap, find, contains, Distinct}
use net_pixeld.Prelude.Int.{ℤ, FitsInt}

pub record Json : Type 1 where
  pub Value : Type 0
  -- json::object() filled with, or an initializer list of, these members
  pub object : Umap Text Value → Value
  pub string : Text → Value
  pub number : ℕ → Value
  pub integer : ℤ → Value
  -- v.dump(), v.dump(2), json::parse(text)
  pub dump : Value → Option Text
  pub dump_indented : Value → Option Text
  pub parse : Text → Option Value
  -- in >> v: the value at the start of the stream's text, whatever follows it
  pub extract : Text → Option Value
  -- v.at(key), v.contains(key), v.items()
  pub at : Value → Text → Option Value
  pub contains_key : Value → Text → Bool
  pub items : Value → Umap Text Value
  -- v.get<std::string>(), v.get<uintN_t>(), v.get<int>()
  pub get_string : Value → Option Text
  pub get_uint : ℕ → Value → Option ℕ
  pub get_int : Value → Option ℤ
  -- v.value(key, default) for a json, a text and a uint64_t default
  pub value_json : Value → Text → Value → Option Value
  pub value_string : Value → Text → Text → Option Text
  pub value_uint64 : Value → Text → ℕ → Option ℕ
  -- every text in the value is valid UTF-8
  pub IsUtf8 : Value → Type 0

-- v.value(key, default), on an object, is the converted member, or the default where it is missing.
abbrev pub or_default {ℓ κ} : {A : Type ℓ} {B : Type κ} → (A → Option B) → B → Option A → Option B
or_default convert d none = some d
or_default convert d (some v) = convert v

module _ (json : Json) where
  open json use {
    Value, object, string, number, integer, dump, dump_indented, parse, extract, at, contains_key,
    items, get_string, get_uint, get_int, value_json, value_string, value_uint64, IsUtf8,
  }

  pub record IsLawful : Type 0 where
    pub parse-dump : (v : Value) (t : Text) → dump v ≡ some t → parse t ≡ some v
    -- the value is read from the start of a text, and what follows it is left
    pub extract-dump_indented :
        (v : Value) (t rest : Text) → dump_indented v ≡ some t → extract (t ++ 10 ∷ rest) ≡ some v
    -- `dump` puts the text on one line: control characters are escaped
    pub dump_printable : (v : Value) (t : Text) → dump v ≡ some t → All (λ c. 32 ≤ c) t
    -- only invalid UTF-8 makes `dump` throw
    pub dump_total : (v : Value) → IsUtf8 v → (t : Text) × (dump v ≡ some t)
    pub dump_indented_total : (v : Value) → IsUtf8 v → (t : Text) × (dump_indented v ≡ some t)
    pub IsUtf8-string : (t : Text) → All (λ c. c < 128) t → IsUtf8 (string t)
    pub IsUtf8-number : (n : ℕ) → IsUtf8 (number n)
    pub IsUtf8-integer : (z : ℤ) → IsUtf8 (integer z)
    pub IsUtf8-object :
        (m : Umap Text Value) → All (λ (k, v). IsUtf8 (string k) × IsUtf8 v) m → IsUtf8 (object m)
    -- the parser takes only valid UTF-8, and the members of a value are parts of it
    pub parse-IsUtf8 : (t : Text) (v : Value) → parse t ≡ some v → IsUtf8 v
    pub extract-IsUtf8 : (t : Text) (v : Value) → extract t ≡ some v → IsUtf8 v
    pub at-IsUtf8 : (v w : Value) (k : Text) → IsUtf8 v → at v k ≡ some w → IsUtf8 w
    pub items-IsUtf8 :
        (v : Value) → IsUtf8 v → All (λ (k, w). IsUtf8 (string k) × IsUtf8 w) (items v)
    pub get_string-IsUtf8 :
        (v : Value) (t : Text) → IsUtf8 v → get_string v ≡ some t → IsUtf8 (string t)
    pub value_json-IsUtf8 :
        (v d w : Value) (k : Text) → IsUtf8 v → IsUtf8 d → value_json v k d ≡ some w → IsUtf8 w
    pub value_string-IsUtf8 :
        (v : Value) (k d t : Text)
        → IsUtf8 v
        → IsUtf8 (string d)
        → value_string v k d ≡ some t
        → IsUtf8 (string t)
    pub at-object : (m : Umap Text Value) (k : Text) → Distinct m → at (object m) k ≡ find k m
    pub contains_key-object :
        (m : Umap Text Value) (k : Text) → Distinct m → contains_key (object m) k ≡ contains k m
    -- an object lists each member once, in an order of its own
    pub items-object :
        (m : Umap Text Value) (k : Text) → Distinct m → find k (items (object m)) ≡ find k m
    pub items_distinct : (m : Umap Text Value) → Distinct m → Distinct (items (object m))
    pub get_string-string : (t : Text) → get_string (string t) ≡ some t
    pub get_uint-number : (w n : ℕ) → n < 2 ^ w → get_uint w (number n) ≡ some n
    pub get_int-integer : (z : ℤ) → FitsInt z → get_int (integer z) ≡ some z
    pub value_json-object :
        (m : Umap Text Value) (k : Text) (d : Value)
        → Distinct m
        → value_json (object m) k d ≡ or_default (λ v. some v) d (find k m)
    pub value_string-object :
        (m : Umap Text Value) (k d : Text)
        → Distinct m
        → value_string (object m) k d ≡ or_default get_string d (find k m)
    pub value_uint64-object :
        (m : Umap Text Value) (k : Text) (d : ℕ)
        → Distinct m
        → value_uint64 (object m) k d ≡ or_default (get_uint 64) d (find k m)
