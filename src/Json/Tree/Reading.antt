-- ===== src/Json/Tree/Reading.antt =====
-- The reader undoes the printer, so the trees are lawful.
use mathlib.Core.List.{append-nil}
use native.Mathlib.Nat.{mod-eq_of_lt}
use net_pixeld.Prelude.{
  ℕ, zero, suc, ◌+◌, ◌≤◌, ◌≡◌, refl, ap, ◌∙◌, subst, some, List, [], ◌∷◌, ◌++◌, All, All-append,
  arith, Text, text_eq, nat_eq, ◌==◌, Bool-cases, inl, inr,
}
use net_pixeld.Prelude.Umap.{Umap}
use net_pixeld.Prelude.Int.{pos, negsuc}
use net_pixeld.Json.{IsLawful}
use net_pixeld.Json.Tree.{
  Tree, text, nat, int, fields, Fields, nil, cons, to_fields, from_fields, print_number, print_text,
  print, print_fields, State, instruction, read, parse, first_line, tree_json,
}

read-append : (s t : Text) (st : State) → read (s ++ t) st ≡ read t (read s st)
unfolding read
read-append [] t st = refl
read-append (c ∷ s) t st = read-append s t (instruction c st)

abbrev counting : ℕ → Text → List Tree → State
counting n built stack = record { count = n; built = built; stack = stack }

read-number :
    (n m : ℕ) (t : Text) (stack : List Tree)
    → read (print_number n) (counting m t stack) ≡ counting (m + n) t stack
unfolding read
read-number zero m t stack = ap (λ k. counting k t stack) (omega arith)
read-number (suc n) m t stack =
    read-number n (suc m) t stack ∙ ap (λ k. counting k t stack) (omega arith)

-- a number and the instruction that takes it
read-counted :
    (n c : ℕ) (t : Text) (stack : List Tree)
    → read (print_number n ++ c ∷ []) (counting 0 t stack) ≡ instruction c (counting n t stack)
unfolding read
read-counted n c t stack =
    read-append (print_number n) (c ∷ []) (counting 0 t stack)
    ∙ ap (instruction c) (read-number n 0 t stack ∙ ap (λ k. counting k t stack) (omega arith))

read-text :
    (s t : Text) (stack : List Tree)
    → read (print_text s) (counting 0 t stack) ≡ counting 0 (s ++ t) stack
unfolding read
read-text [] t stack = refl
read-text (c ∷ s) t stack =
    read-append (print_text s) (print_number c ++ b'c' ∷ []) (counting 0 t stack)
    ∙ ap (read (print_number c ++ b'c' ∷ [])) (read-text s t stack)
    ∙ read-counted c b'c' (s ++ t) stack

read-worded :
    (s : Text) (c : ℕ) (stack : List Tree)
    → read (print_text s ++ c ∷ []) (counting 0 [] stack) ≡ instruction c (counting 0 s stack)
unfolding read
read-worded s c stack =
    read-append (print_text s) (c ∷ []) (counting 0 [] stack)
    ∙ ap (instruction c) (read-text s [] stack ∙ ap (λ t. counting 0 t stack) (append-nil s))

mutual
  unfolding print read

  read-print :
      (v : Tree) (stack : List Tree)
      → read (print v) (counting 0 [] stack) ≡ counting 0 [] (v ∷ stack)
  read-print (text s) stack = read-worded s b'S' stack
  read-print (nat n) stack = read-counted n b'N' [] stack
  read-print (int (pos n)) stack = read-counted n b'P' [] stack
  read-print (int (negsuc n)) stack = read-counted n b'M' [] stack
  read-print (fields fs) stack = read-print_fields fs stack

  read-print_fields :
      (fs : Fields) (stack : List Tree)
      → read (print_fields fs) (counting 0 [] stack) ≡ counting 0 [] (fields fs ∷ stack)
  read-print_fields nil stack = refl
  read-print_fields (cons k v fs) stack =
      read-append (print_fields fs) (print v ++ (print_text k ++ b'F' ∷ [])) (counting 0 [] stack)
      ∙ ap (read (print v ++ (print_text k ++ b'F' ∷ []))) (read-print_fields fs stack)
      ∙ read-append (print v) (print_text k ++ b'F' ∷ []) (counting 0 [] (fields fs ∷ stack))
      ∙ ap (read (print_text k ++ b'F' ∷ [])) (read-print v (fields fs ∷ stack))
      ∙ read-worded k b'F' (v ∷ fields fs ∷ stack)

abbrev IsPrintable : Text → Type 0
IsPrintable = All (λ c. 32 ≤ c)

number-IsPrintable : (n : ℕ) → IsPrintable (print_number n)
number-IsPrintable zero = tt
number-IsPrintable (suc n) = (omega arith, number-IsPrintable n)

counted-IsPrintable : (n c : ℕ) → 32 ≤ c → IsPrintable (print_number n ++ c ∷ [])
counted-IsPrintable n c h = All-append _ (print_number n) _ (number-IsPrintable n) (h, tt)

text-IsPrintable : (s : Text) → IsPrintable (print_text s)
text-IsPrintable [] = tt
text-IsPrintable (c ∷ s) =
    All-append _ (print_text s) _ (text-IsPrintable s) (counted-IsPrintable c b'c' (omega arith))

worded-IsPrintable : (s : Text) (c : ℕ) → 32 ≤ c → IsPrintable (print_text s ++ c ∷ [])
worded-IsPrintable s c h = All-append _ (print_text s) _ (text-IsPrintable s) (h, tt)

mutual
  unfolding print

  print-IsPrintable : (v : Tree) → IsPrintable (print v)
  print-IsPrintable (text s) = worded-IsPrintable s b'S' (omega arith)
  print-IsPrintable (nat n) = counted-IsPrintable n b'N' (omega arith)
  print-IsPrintable (int (pos n)) = counted-IsPrintable n b'P' (omega arith)
  print-IsPrintable (int (negsuc n)) = counted-IsPrintable n b'M' (omega arith)
  print-IsPrintable (fields fs) = print_fields-IsPrintable fs

  print_fields-IsPrintable : (fs : Fields) → IsPrintable (print_fields fs)
  print_fields-IsPrintable nil = omega arith
  print_fields-IsPrintable (cons k v fs) =
      All-append _ (print_fields fs) _ (print_fields-IsPrintable fs)
        (All-append _ (print v) _ (print-IsPrintable v) (worded-IsPrintable k b'F' (omega arith)))

parse-print : (v : Tree) (t : Text) → some (print v) ≡ some t → parse t ≡ some v
unfolding parse
parse-print v t e =
    let same : print v ≡ t = cc in subst (λ u. parse u ≡ some v) same (rw (read-print v []))

first_line-IsPrintable : (s rest : Text) → IsPrintable s → first_line (s ++ 10 ∷ rest) ≡ s
first_line-IsPrintable [] rest h = refl
first_line-IsPrintable (c ∷ s) rest (above, h) =
    let more = first_line-IsPrintable s rest h in
    elim (Bool-cases (c == 10)) [ inl e ↦ ground (arith, e, above) | inr e ↦ rw (e, more) ]

extract-print :
    (v : Tree) (t rest : Text)
    → some (print v) ≡ some t
    → parse (first_line (t ++ 10 ∷ rest)) ≡ some v
extract-print v t rest e =
    let same : print v ≡ t = cc in
    let printable = subst IsPrintable same (print-IsPrintable v) in
    ap parse (first_line-IsPrintable t rest printable) ∙ parse-print v t e

from_to : (m : Umap Text Tree) → from_fields (to_fields m) ≡ m
from_to [] = refl
from_to ((k, v) ∷ m) = ap (◌∷◌ (k, v)) (from_to m)

items-All : (m : Umap Text Tree) → All (λ (k, w). Unit {0} × Unit {0}) m
items-All [] = tt
items-All ((k, v) ∷ m) = ((tt, tt), items-All m)

pub tree_json-IsLawful : IsLawful tree_json
tree_json-IsLawful = record {
  parse-dump = parse-print;
  extract-dump_indented = extract-print;
  dump_printable = λ v t e. subst IsPrintable (cc) (print-IsPrintable v);
  dump_total = λ v u. (print v, refl);
  dump_indented_total = λ v u. (print v, refl);
  IsUtf8-string = λ t h. tt;
  IsUtf8-number = λ n. tt;
  IsUtf8-integer = λ z. tt;
  IsUtf8-object = λ m h. tt;
  parse-IsUtf8 = λ t v e. tt;
  extract-IsUtf8 = λ t v e. tt;
  at-IsUtf8 = λ v w k u e. tt;
  items-IsUtf8 = λ v u. items-All (tree_json.items v);
  get_string-IsUtf8 = λ v t u e. tt;
  value_json-IsUtf8 = λ v d w k u h e. tt;
  value_string-IsUtf8 = λ v k d t u h e. tt;
  at-object = λ m k d. rw (from_to m);
  contains_key-object = λ m k d. rw (from_to m);
  items-object = λ m k d. rw (from_to m);
  items_distinct = λ m d. rw (from_to m) d;
  get_string-string = λ t. refl;
  get_uint-number = λ w n h. ap (λ k. some k) (mod-eq_of_lt h);
  get_int-integer = λ z h. refl;
  value_json-object = λ m k d h. rw (from_to m);
  value_string-object = λ m k d h. rw (from_to m);
  value_uint64-object = λ m k d h. rw (from_to m);
}
