-- ===== src/Prelude/Umap.antt =====
-- `std::unordered_map` and `std::map`: association lists whose order is the order of iteration.
use mathlib.Core.Path.{◌≡◌, refl, sym, subst}
use mathlib.Core.Bool.{Bool, true, false}
use mathlib.Core.Option.{Option, none, some}
use mathlib.Core.List.{List, [], ◌∷◌}
use native.Mathlib.Omega.{arith}
use net_pixeld.Prelude.Lists.{All}
use net_pixeld.Prelude.Tests.{Eq, ◌==◌, if◌then◌else◌, Bool-cases}
use mathlib.Core.Logic.{inl, inr}

abbrev pub Umap {ℓ κ} : Type ℓ → Type κ → Type (ℓ ⊔ κ)
Umap K V = List (K × V)

module _ {ℓ κ} {K : Type ℓ} {V : Type κ} ⦃e : Eq K⦄ where
  -- m.find(k)
  unfoldable pub find : K → Umap K V → Option V
  find k [] = none
  find k ((j, v) ∷ m) = if j == k then some v else find k m

  -- m[k] = v
  unfoldable pub assign : K → V → Umap K V → Umap K V
  assign k v [] = (k, v) ∷ []
  assign k v ((j, w) ∷ m) = if j == k then (j, v) ∷ m else (j, w) ∷ assign k v m

  -- m.erase(k)
  unfoldable pub erase : K → Umap K V → Umap K V
  erase k [] = []
  erase k ((j, w) ∷ m) = let rest = erase k m in if j == k then rest else (j, w) ∷ rest

  -- m.count(k) > 0
  abbrev pub contains : K → Umap K V → Bool
  contains k m = elim (find k m) [ none ↦ false | some v ↦ true ]

  -- The keys are pairwise different.
  abbrev pub Distinct : Umap K V → Type κ
  Distinct [] = Unit
  Distinct ((k, v) ∷ m) = (find k m ≡ none) × Distinct m

  pub find-assign :
      (k j : K) (v : V) (m : Umap K V)
      → find j (assign k v m) ≡ (if k == j then some v else find j m)
  unfolding find assign
  find-assign k j v [] = refl
  find-assign k j v ((i, w) ∷ m) =
      ground (arith, e.beq_iff k j, e.beq_iff i k, e.beq_iff i j, find-assign k j v m)

  pub find-erase :
      (k j : K) (m : Umap K V) → find j (erase k m) ≡ (if k == j then none else find j m)
  unfolding find erase
  find-erase k j [] = ground arith
  find-erase k j ((i, w) ∷ m) =
      ground (arith, e.beq_iff k j, e.beq_iff i k, e.beq_iff i j, find-erase k j m)

  pub All-find {μ} :
      (P : K × V → Type μ) (k : K) (v : V) (m : Umap K V) → find k m ≡ some v → All P m → P (k, v)
  unfolding find
  All-find P k v [] f h = cc
  All-find P k v ((j, w) ∷ m) f h = elim (Bool-cases (j == k)) [
    | inl hit ↦
        let key = (e.beq_iff j k).0 hit in
        let value : w ≡ v = ground (arith, f, hit) in
        subst (λ x. P (k, x)) value (subst (λ i. P (i, w)) key h.0)
    | inr miss ↦ All-find P k v m (ground (arith, f, miss)) h.1
  ]

  pub assign-All {μ} :
      (P : K × V → Type μ) (k : K) (v : V) (m : Umap K V)
      → P (k, v)
      → All P m
      → All P (assign k v m)
  unfolding assign
  assign-All P k v [] new h = (new, tt)
  assign-All P k v ((j, w) ∷ m) new h = elim (Bool-cases (j == k)) [
    | inl hit ↦ rw hit (subst (λ i. P (i, v)) (sym ((e.beq_iff j k).0 hit)) new, h.1)
    | inr miss ↦ rw miss (h.0, assign-All P k v m new h.1)
  ]

  pub assign-Distinct : (k : K) (v : V) (m : Umap K V) → Distinct m → Distinct (assign k v m)
  unfolding find assign
  assign-Distinct k v [] d = (refl, tt)
  assign-Distinct k v ((i, w) ∷ m) d =
      ground (arith, e.beq_iff i k, e.beq_iff k i, find-assign k i v m, assign-Distinct k v m d.1)

  pub erase-Distinct : (k : K) (m : Umap K V) → Distinct m → Distinct (erase k m)
  unfolding erase
  erase-Distinct k [] d = tt
  erase-Distinct k ((i, w) ∷ m) d =
      ground (arith, e.beq_iff i k, e.beq_iff k i, find-erase k i m, erase-Distinct k m d.1)

  find-All :
      (m all : Umap K V)
      → Distinct m
      → ((k : K) (v : V) → find k m ≡ some v → find k all ≡ some v)
      → All (λ (k, v). find k all ≡ some v) m
  unfolding find
  find-All [] all d h = tt
  find-All ((k, v) ∷ m) all d h = (
    h k v (ground (arith, e.beq_iff k k)),
    find-All m all d.1 (λ j w f. h j w (ground (arith, e.beq_iff k j, d.0))),
  )

  -- With distinct keys, each entry is the one that is found.
  pub Distinct-All : (m : Umap K V) → Distinct m → All (λ (k, v). find k m ≡ some v) m
  Distinct-All m d = find-All m m d (λ k v f. f)

pub beq_refl {ℓ} : {K : Type ℓ} ⦃e : Eq K⦄ (k : K) → (k == k) ≡ true
beq_refl ⦃e⦄ k = (e.beq_iff k k).1 refl
