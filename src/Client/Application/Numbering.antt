-- ===== src/Client/Application/Numbering.antt =====
-- The sequence numbers that the client lets through (client/src/app/Application.cpp).
use net_pixeld.Prelude.{
  ℕ, ◌+◌, ◌≡◌, ap, ◌∙◌, inl, inr, true, ◌&&◌, List, [], ◌∷◌, arith, Text, text_eq, ◌==◌,
  if◌then◌else◌, Bool-cases,
}
use net_pixeld.Prelude.Umap.{Umap, assign, find-assign}
use net_pixeld.Client.Application.{last_seq, in_order}

pub last_seq-assign :
    (type t : Text) (n : ℕ) (seqs : Umap Text ℕ)
    → last_seq t (assign type n seqs) ≡ (if type == t then n else last_seq t seqs)
last_seq-assign type t n seqs = ground (arith, find-assign type t n seqs)

same_seq :
    (type t : Text) (seqs : Umap Text ℕ)
    → last_seq t (assign type (last_seq type seqs) seqs) ≡ last_seq t seqs
same_seq type t seqs = elim (Bool-cases (type == t)) [
  | inl e ↦
      ground (arith, e, last_seq-assign type t (last_seq type seqs) seqs, text_eq.beq_iff type t)
  | inr e ↦ ground (arith, e, last_seq-assign type t (last_seq type seqs) seqs)
]

-- A message is let through exactly when its number is one more than the last of its type, and then
-- it is the last; the numbers of the other types, and all numbers otherwise, stay.
pub in_order_lem :
    (type t : Text) (n : ℕ) (seqs : Umap Text ℕ)
    → ((in_order type n seqs).0 ≡ true → n ≡ last_seq type seqs + 1)
      × (last_seq t (in_order type n seqs).1
          ≡ (if (in_order type n seqs).0 && type == t then n else last_seq t seqs))
unfolding in_order
in_order_lem type t n seqs =
    (ground arith, ground (arith, last_seq-assign type t n seqs, same_seq type t seqs))

-- the numbers of the messages of type `t` that are let through, in order
unfoldable pub taken : Text → List (Text × ℕ) → Umap Text ℕ → List ℕ
taken t [] seqs = []
taken t ((type, n) ∷ rest) seqs =
    let (next, after) = in_order type n seqs in
    let later = taken t rest after in if next && type == t then n ∷ later else later

-- one after the other, after `last`
abbrev pub IsConsecutive : ℕ → List ℕ → Type 0
IsConsecutive last [] = Unit
IsConsecutive last (n ∷ rest) = (n ≡ last + 1) × IsConsecutive n rest

-- Whatever messages arrive, those of one type that the client lets through are numbered one after
-- the other from the last number seen of that type.
pub taken-IsConsecutive :
    (t : Text) (messages : List (Text × ℕ)) (seqs : Umap Text ℕ)
    → IsConsecutive (last_seq t seqs) (taken t messages seqs)
unfolding taken
taken-IsConsecutive t [] seqs = tt
taken-IsConsecutive t ((type, n) ∷ rest) seqs =
    let (next, last) = in_order_lem type t n seqs in
    let later = taken-IsConsecutive t rest (in_order type n seqs).1 in
    elim (Bool-cases ((in_order type n seqs).0 && type == t)) [
      | inl e ↦
          let same : type ≡ t = (text_eq.beq_iff type t).0 (ground (arith, e)) in
          let first : n ≡ last_seq t seqs + 1 =
            next (ground (arith, e)) ∙ ap (λ u. last_seq u seqs + 1) same in
          let now : last_seq t (in_order type n seqs).1 ≡ n = last ∙ rw e in
          rw e (first, rw now at later)
      | inr e ↦
          let now : last_seq t (in_order type n seqs).1 ≡ last_seq t seqs = last ∙ rw e in
          rw e (rw now at later)
    ]
