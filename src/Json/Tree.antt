-- ===== src/Json/Tree.antt =====
-- An instance of the interface: JSON values as trees, printed in postfix notation, with numbers in
-- unary. It shows that the assumptions of `IsLawful` hold together, and runs the examples.
pub mod Reading
use net_pixeld.Prelude.{
  ℕ, zero, suc, ◌%◌, ◌^◌, Bool, true, false, Option, none, some, List, [], ◌∷◌, ◌++◌, Text, text_eq,
  ◌==◌, nat_eq, if◌then◌else◌, replicate,
}
use net_pixeld.Prelude.Umap.{Umap, find, contains}
use net_pixeld.Prelude.Int.{ℤ, pos, negsuc}
use net_pixeld.Json.{Json, or_default}

mutual
  pub data Tree : Type 0 where
    text : Text → Tree
    nat : ℕ → Tree
    int : ℤ → Tree
    fields : Fields → Tree

  pub data Fields : Type 0 where
    nil : Fields
    cons : Text → Tree → Fields → Fields

abbrev pub to_fields : Umap Text Tree → Fields
to_fields [] = nil
to_fields ((k, v) ∷ m) = cons k v (to_fields m)

abbrev pub from_fields : Fields → Umap Text Tree
from_fields nil = []
from_fields (cons k v fs) = (k, v) ∷ from_fields fs

abbrev pub members_of : Tree → Umap Text Tree
members_of (fields fs) = from_fields fs
members_of _ = []

-- 'i' counts, 'c' puts the count in front of the text that is being built.
abbrev pub print_number : ℕ → Text
print_number n = replicate n b'i'

abbrev pub print_text : Text → Text
print_text [] = []
print_text (c ∷ s) = print_text s ++ (print_number c ++ b'c' ∷ [])

unfoldable mutual
  pub print : Tree → Text
  print (text s) = print_text s ++ b'S' ∷ []
  print (nat n) = print_number n ++ b'N' ∷ []
  print (int (pos n)) = print_number n ++ b'P' ∷ []
  print (int (negsuc n)) = print_number n ++ b'M' ∷ []
  print (fields fs) = print_fields fs

  pub print_fields : Fields → Text
  print_fields nil = b'E' ∷ []
  print_fields (cons k v fs) = print_fields fs ++ (print v ++ (print_text k ++ b'F' ∷ []))

-- The reader: a count, a text and a stack.
pub record State : Type 0 where
  pub count : ℕ
  pub built : Text
  pub stack : List Tree

abbrev pub start : State
start = record { count = 0; built = []; stack = [] }

abbrev pub push : Tree → State → State
push t s = record { count = 0; built = []; stack = t ∷ s.stack }

-- The top two entries become one: a value and the object that it is added to.
abbrev pub add_field : Text → List Tree → List Tree
add_field k (v ∷ fields fs ∷ rest) = fields (cons k v fs) ∷ rest
add_field k other = other

abbrev pub instruction : ℕ → State → State
instruction c s =
    if c == b'i'
    then record s { count = suc s.count }
    else if c == b'c'
    then record s { count = 0; built = s.count ∷ s.built }
    else if c == b'S'
    then push (text s.built) s
    else if c == b'N'
    then push (nat s.count) s
    else if c == b'P'
    then push (int (pos s.count)) s
    else if c == b'M'
    then push (int (negsuc s.count)) s
    else if c == b'E'
    then push (fields nil) s
    else if c == b'F'
    then record { count = 0; built = []; stack = add_field s.built s.stack }
    else s

unfoldable pub read : Text → State → State
read [] s = s
read (c ∷ cs) s = read cs (instruction c s)

abbrev top : List Tree → Option Tree
top [] = none
top (t ∷ _) = some t

abbrev text_of : Tree → Option Text
text_of (text s) = some s
text_of _ = none

abbrev uint_of : ℕ → Tree → Option ℕ
uint_of w (nat n) = some (n % 2 ^ w)
uint_of w _ = none

abbrev int_of : Tree → Option ℤ
int_of (int z) = some z
int_of _ = none

unfoldable pub parse : Text → Option Tree
unfolding read
parse s = top (read s start).stack

-- the text in front of the first line break; no value is printed with one
abbrev pub first_line : Text → Text
first_line [] = []
first_line (c ∷ s) = let rest = first_line s in if c == 10 then [] else c ∷ rest

abbrev pub tree_json : Json
tree_json = record {
  Value = Tree;
  object = λ m. fields (to_fields m);
  string = text;
  number = nat;
  integer = int;
  dump = λ v. some (print v);
  dump_indented = λ v. some (print v);
  parse = parse;
  extract = λ s. parse (first_line s);
  at = λ v k. find k (members_of v);
  contains_key = λ v k. contains k (members_of v);
  items = members_of;
  get_string = text_of;
  get_uint = uint_of;
  get_int = int_of;
  value_json = λ v k d. or_default (λ w. some w) d (find k (members_of v));
  value_string = λ v k d. or_default text_of d (find k (members_of v));
  value_uint64 = λ v k d. or_default (uint_of 64) d (find k (members_of v));
  IsUtf8 = λ _. Unit;
}
