-- ===== src/Db/Lookup.antt =====
-- How the loops over the accounts meet the lookups by user and by uuid (server/inc/JsonDB.hpp).
use mathlib.Core.Option
use net_pixeld.Prelude.{
  ◌≡◌, refl, ◌⊎◌, inl, inr, none, some, [], ◌∷◌, arith, Text, text_eq, text_eqb_iff, ◌==◌,
  if◌then◌else◌, Option-cases, Bool-cases,
}
use net_pixeld.Prelude.Umap.{Umap, find, Distinct}
use net_pixeld.Db.Types.{Account}
use net_pixeld.Db.Queries.{find_uuid, update_uuid}

-- An update of the account with a uuid, which keeps the uuid.
module _ (uuid : Text) (f : Account → Account)
    (keeps : (acc : Account) → (f acc).uuid ≡ acc.uuid) where
  pub find_uuid-update_uuid :
      (v : Text) (m new : Umap Text Account)
      → update_uuid uuid f m ≡ some new
      → find_uuid v new ≡ (if uuid == v then Option.map f (find_uuid v m) else find_uuid v m)
  unfolding find_uuid update_uuid
  find_uuid-update_uuid v [] new h = cc
  find_uuid-update_uuid v ((user, acc) ∷ rest) new h =
      elim (Option-cases (update_uuid uuid f rest)) [
        | inl e ↦ ground (
          arith,
          e,
          text_eqb_iff uuid v,
          text_eqb_iff acc.uuid v,
          text_eqb_iff acc.uuid uuid,
          keeps acc,
        )
        | inr (tail, e) ↦ ground (
          arith,
          e,
          find_uuid-update_uuid v rest tail e,
          text_eqb_iff uuid v,
          text_eqb_iff acc.uuid v,
          text_eqb_iff acc.uuid uuid,
          keeps acc,
        )
      ]

  -- The users stay, and each account is as before or changed by `f`.
  pub find-update_uuid :
      (user : Text) (m new : Umap Text Account)
      → update_uuid uuid f m ≡ some new
      → (find user new ≡ find user m) ⊎ (find user new ≡ Option.map f (find user m))
  unfolding find update_uuid
  find-update_uuid user [] new h = cc
  find-update_uuid user ((name, acc) ∷ rest) new h = elim (Option-cases (update_uuid uuid f rest)) [
    | inl e ↦ ground (arith, e)
    | inr (tail, e) ↦ ground (arith, e, find-update_uuid user rest tail e)
  ]

  pub Distinct-update_uuid :
      (m new : Umap Text Account) → update_uuid uuid f m ≡ some new → Distinct m → Distinct new
  unfolding update_uuid
  Distinct-update_uuid [] new h d = cc
  Distinct-update_uuid ((name, acc) ∷ rest) new h d =
      elim (Option-cases (update_uuid uuid f rest)) [
        | inl e ↦ ground (arith, e)
        | inr (tail, e) ↦
            ground (arith, e, find-update_uuid name rest tail e, Distinct-update_uuid rest tail e)
      ]

-- The loop finds an account to change exactly when the query finds one.
pub update_uuid-none :
    (uuid : Text) (f : Account → Account) (m : Umap Text Account)
    → find_uuid uuid m ≡ none
    → update_uuid uuid f m ≡ none
unfolding find_uuid update_uuid
update_uuid-none uuid f [] h = refl
update_uuid-none uuid f ((user, acc) ∷ rest) h = ground (arith, update_uuid-none uuid f rest)

pub update_uuid-some :
    (uuid : Text) (f : Account → Account) (m : Umap Text Account) (acc : Account)
    → find_uuid uuid m ≡ some acc
    → (new : Umap Text Account) × (update_uuid uuid f m ≡ some new)
unfolding find_uuid update_uuid
update_uuid-some uuid f [] acc h = cc
update_uuid-some uuid f ((user, first) ∷ rest) acc h = elim (Bool-cases (first.uuid == uuid)) [
  | inl hit ↦ ((user, f first) ∷ rest, rw hit)
  | inr miss ↦
      let (tail, e) = update_uuid-some uuid f rest acc (ground arith) in
      ((user, first) ∷ tail, rw (miss, e))
]
