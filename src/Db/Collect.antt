-- ===== src/Db/Collect.antt =====
-- The loops of `save` and `load` over the members of a JSON object (server/inc/JsonDB.hpp).
use mathlib.Core.Option
use net_pixeld.Prelude.{
  ◌≡◌, refl, sym, ap, ◌∙◌, subst, inl, inr, Option, none, some, [], ◌∷◌, map, arith, Text, text_eq,
  text_eqb_iff, ◌==◌, Bool-cases,
}
use net_pixeld.Prelude.Outcome.{Outcome, ok}
use net_pixeld.Prelude.Umap.{Umap, find, assign, Distinct, find-assign}
use net_pixeld.Json.{Json, IsLawful}
use net_pixeld.Db.File.Format.{collect}

module _ {V W : Type 0} (g : V → W) where
  abbrev pub on_value : Text × V → Text × W
  on_value (k, v) = (k, g v)

  pub find-map : (k : Text) (m : Umap Text V) → find k (map on_value m) ≡ Option.map g (find k m)
  unfolding find
  find-map k [] = refl
  find-map k ((j, v) ∷ m) = ground (arith, find-map k m)

  pub Distinct-map : (m : Umap Text V) → Distinct m → Distinct (map on_value m)
  Distinct-map [] d = tt
  Distinct-map ((j, v) ∷ m) d = (find-map j m ∙ ap (Option.map g) d.0, Distinct-map m d.1)

-- What `collect` stores under a key, given the member and what was there.
abbrev Stored : {V A : Type 0} → (V → Outcome A) → Option V → Option A → Option A → Type 0
Stored convert none before after = after ≡ before
Stored {A = A} convert (some v) before after = (a : A) × (convert v ≡ ok a) × (after ≡ some a)

head_found : {V : Type 0} (key : Text) (v : V) (m : Umap Text V) → find key ((key, v) ∷ m) ≡ some v
unfolding find
head_found key v m = ground (arith, text_eqb_iff key key)

tail_found :
    {V : Type 0} (key k : Text) (w v : V) (m : Umap Text V)
    → find key m ≡ none
    → find k m ≡ some v
    → find k ((key, w) ∷ m) ≡ some v
unfolding find
tail_found key k w v m d f = elim (Bool-cases (key == k)) [
  | inl hit ↦ let e = (text_eqb_iff key k).0 hit in cc
  | inr miss ↦ rw miss f
]

Stored-head :
    {V A : Type 0} (convert : V → Outcome A) (key k : Text) (v : V) (a : A) (m : Umap Text V)
    (done new : Umap Text A)
    → find key m ≡ none
    → convert v ≡ ok a
    → Stored convert (find k m) (find k (assign key a done)) (find k new)
    → Stored convert (find k ((key, v) ∷ m)) (find k done) (find k new)
unfolding find
Stored-head convert key k v a m done new d converted s = elim (Bool-cases (key == k)) [
  | inl hit ↦
      let e = (text_eqb_iff key k).0 hit in
      let missing : find k m ≡ none = cc in
      let kept : find k new ≡ find k (assign key a done) =
        subst (λ o. Stored convert o (find k (assign key a done)) (find k new)) missing s in
      rw hit (a, converted, kept ∙ find-assign key k a done ∙ rw hit)
  | inr miss ↦
      rw miss (
        subst (λ o. Stored convert (find k m) o (find k new)) (find-assign key k a done ∙ rw miss)
          s)
]

module _ (json : Json) where
  open json use {Value, object}

  collect_lem :
      {A : Type 0} (convert : Value → Outcome A) (m : Umap Text Value) (done : Umap Text A)
      → Distinct m
      → ((k : Text) (v : Value) → find k m ≡ some v → (a : A) × (convert v ≡ ok a))
      → (new : Umap Text A) × (collect json convert m done ≡ ok new)
        × ((k : Text) → Stored convert (find k m) (find k done) (find k new))
  unfolding collect find
  collect_lem convert [] done d h = (done, refl, λ k. refl)
  collect_lem {A} convert ((key, value) ∷ m) done d h =
      let (a, converted) = h key value (head_found key value m) in
      let (new, e, stored) =
        collect_lem convert m (assign key a done) d.1
          (λ k v f. h k v (tail_found key k value v m d.0 f)) in
      (
        new,
        rw converted e,
        λ k. Stored-head convert key k value a m done new d.0 converted (stored k),
      )

-- Two optional values that are both missing, or related.
abbrev pub Related : {V A : Type 0} → (V → A → Type 0) → Option V → Option A → Type 0
Related R none none = Unit
Related R (some v) (some a) = R v a
Related R _ _ = ⊥

module _ {V W A : Type 0} (g : V → W) (convert : W → Outcome A) (R : V → A → Type 0) where
  -- What is known of the conversion of an entry.
  abbrev pub Converts : Option V → Type 0
  Converts o = (v : V) → o ≡ some v → (a : A) × (convert (g v) ≡ ok a) × R v a

  related :
      (o : Option V) (after : Option A)
      → Converts o
      → Stored convert (Option.map g o) none after
      → Related R o after
  related none none c e = tt
  related none (some a) c e = cc
  related (some v) none c (a, converted, e) = cc
  related (some v) (some b) c (a, converted, e) = let (a', same, r) = c v refl in subst (R v) (cc) r

  converts :
      (o : Option V) (w : W) → Converts o → Option.map g o ≡ some w → (a : A) × (convert w ≡ ok a)
  converts none w c e = cc
  converts (some v) w c e = let (a, converted, _) = c v refl in (a, ground (arith, converted))

module _ (json : Json) (lawful : IsLawful json) where
  open json use {Value, object}

  -- The loop of `load` over the members that the loop of `save` made.
  pub collect-items :
      {V A : Type 0} (g : V → Value) (convert : Value → Outcome A) (R : V → A → Type 0)
      (m : Umap Text V)
      → Distinct m
      → ((k : Text) → Converts g convert R (find k m))
      → (new : Umap Text A) × (collect json convert (json.items (object (map (on_value g) m))) []
          ≡ ok new)
        × ((k : Text) → Related R (find k m) (find k new))
  unfolding find
  collect-items {V} {A} g convert R m d c =
      let made = map (on_value g) m in
      let found : (k : Text) → find k (json.items (object made)) ≡ Option.map g (find k m) =
        λ k. lawful.items-object made k (Distinct-map g m d) ∙ find-map g k m in
      let (new, e, stored) =
        collect_lem json convert (json.items (object made)) []
          (lawful.items_distinct made (Distinct-map g m d))
          (λ k v f. converts g convert R (find k m) v (c k) (sym (found k) ∙ f)) in
      (
        new,
        e,
        λ k.
            related g convert R (find k m) (find k new) (c k)
              (subst (λ o. Stored convert o none (find k new)) (found k) (stored k)),
      )
