-- ===== src/Db/Encodable.antt =====
-- The accounts whose texts are valid UTF-8, which `save` can dump (server/inc/JsonDB.hpp).
use net_pixeld.Prelude.{
  ◌<◌, ◌≡◌, subst, inl, inr, some, [], ◌∷◌, All, map, arith, text_eqb_iff, Text, codes, text_eq,
  ◌==◌, Option-cases, Bool-cases,
}
use net_pixeld.Prelude.Umap.{Umap}
use net_pixeld.Prelude.Int.{ℤ}
use net_pixeld.Json.{Json, IsLawful}
use net_pixeld.Resource.{Resources}
use net_pixeld.Db.Types.{Account}
use net_pixeld.Db.Queries.{find_uuid, update_uuid}
use net_pixeld.Db.File.Format.{
  database_value, account_members, account_member, resource_members, level_member,
}

module _ (json : Json) where
  -- The text is valid UTF-8.
  abbrev pub IsEncodable : Text → Type 0
  IsEncodable t = json.IsUtf8 (json.string t)

  pub record IsUtf8Entry (entry : Text × Account) : Type 0 where
    pub user : IsEncodable entry.0
    pub password : IsEncodable entry.1.password
    pub uuid : IsEncodable entry.1.uuid
    pub camps : All (λ (c : Text × ℤ). IsEncodable c.0) entry.1.camp_levels

  pub update_uuid-IsUtf8Entry :
      (uuid : Text) (f : Account → Account)
      → ((user : Text) (acc : Account) → IsUtf8Entry (user, acc) → IsUtf8Entry (user, f acc))
      → (m new : Umap Text Account) → update_uuid uuid f m ≡ some new
      → All IsUtf8Entry m
      → All IsUtf8Entry new
  unfolding update_uuid
  update_uuid-IsUtf8Entry uuid f keeps [] new e h = cc
  update_uuid-IsUtf8Entry uuid f keeps ((user, acc) ∷ m) new e h =
      elim (Bool-cases (acc.uuid == uuid)) [
        | inl hit ↦
            let same : (user, f acc) ∷ m ≡ new = ground (arith, e, hit) in
            subst (All IsUtf8Entry) same (keeps user acc h.0, h.1)
        | inr miss ↦ elim (Option-cases (update_uuid uuid f m)) [
          | inl missing ↦ ground (arith, e, miss, missing)
          | inr (tail, there) ↦
              let same : (user, acc) ∷ tail ≡ new = ground (arith, e, miss, there) in
              subst (All IsUtf8Entry) same
                (h.0, update_uuid-IsUtf8Entry uuid f keeps m tail there h.1)
        ]
      ]

  -- the uuid of a storable account
  pub find_uuid-IsEncodable :
      (uuid : Text) (m : Umap Text Account) (acc : Account)
      → find_uuid uuid m ≡ some acc
      → All IsUtf8Entry m
      → IsEncodable uuid
  unfolding find_uuid
  find_uuid-IsEncodable uuid [] acc e h = cc
  find_uuid-IsEncodable uuid ((user, a) ∷ m) acc e h = elim (Bool-cases (a.uuid == uuid)) [
    | inl hit ↦ subst IsEncodable ((text_eqb_iff a.uuid uuid).0 hit) h.0.uuid
    | inr miss ↦ find_uuid-IsEncodable uuid m acc (ground (arith, e, miss)) h.1
  ]

  module _ (lawful : IsLawful json) where
    ascii : (t : Text) → All (λ c. c < 128) t → IsEncodable t
    ascii = lawful.IsUtf8-string

    resources-IsUtf8 : (r : Resources) → json.IsUtf8 (json.object (resource_members json r))
    resources-IsUtf8 r = lawful.IsUtf8-object _ (
      (ascii (codes "wood") (ground arith), lawful.IsUtf8-number r.wood),
      (
        (ascii (codes "food") (ground arith), lawful.IsUtf8-number r.food),
        ((ascii (codes "iron") (ground arith), lawful.IsUtf8-number r.iron), tt),
      ),
    )

    levels-IsUtf8 :
        (levels : Umap Text ℤ)
        → All (λ (c : Text × ℤ). IsEncodable c.0) levels
        → All (λ (k, v). IsEncodable k × json.IsUtf8 v) (map (level_member json) levels)
    levels-IsUtf8 [] h = tt
    levels-IsUtf8 ((camp, level) ∷ rest) h =
        ((h.0, lawful.IsUtf8-integer level), levels-IsUtf8 rest h.1)

    account-IsUtf8 :
        (user : Text) (acc : Account)
        → IsUtf8Entry (user, acc)
        → json.IsUtf8 (json.object (account_members json acc))
    account-IsUtf8 user acc h = lawful.IsUtf8-object _ (
      (ascii (codes "password") (ground arith), h.password),
      (
        (ascii (codes "uuid") (ground arith), h.uuid),
        (
          (ascii (codes "resources") (ground arith), resources-IsUtf8 acc.resources),
          (
            (
              ascii (codes "campLevels") (ground arith),
              lawful.IsUtf8-object _ (levels-IsUtf8 acc.camp_levels h.camps),
            ),
            tt,
          ),
        ),
      ),
    )

    accounts-IsUtf8 :
        (m : Umap Text Account)
        → All IsUtf8Entry m
        → All (λ (k, v). IsEncodable k × json.IsUtf8 v) (map (account_member json) m)
    accounts-IsUtf8 [] h = tt
    accounts-IsUtf8 ((user, acc) ∷ rest) h =
        ((h.0.user, account-IsUtf8 user acc h.0), accounts-IsUtf8 rest h.1)

    pub database-IsUtf8 :
        (m : Umap Text Account) → All IsUtf8Entry m → json.IsUtf8 (database_value json m)
    unfolding database_value
    database-IsUtf8 m h = lawful.IsUtf8-object _ (
      (ascii (codes "accounts") (ground arith), lawful.IsUtf8-object _ (accounts-IsUtf8 m h)),
      tt,
    )
