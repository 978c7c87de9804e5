-- ===== src/Db/File/Format.antt =====
-- The JSON of the accounts: what `save` builds and `load` takes apart (server/inc/JsonDB.hpp).
use net_pixeld.Prelude.{[], ◌∷◌, map, Text, codes, text_eq, if◌then◌else◌}
use net_pixeld.Prelude.Outcome.{Outcome, ok, json_error, or_throw, ◌>>=◌}
use net_pixeld.Prelude.Umap.{Umap, assign}
use net_pixeld.Prelude.Int.{ℤ}
use net_pixeld.Json.{Json}
use net_pixeld.Resource.{Resources}
use net_pixeld.Db.Types.{Account}

module _ (json : Json) where
  open json use {
    Value, object, string, number, integer, at, contains_key, items, get_int, value_json,
    value_string, value_uint64,
  }

  abbrev pub resource_members : Resources → Umap Text Value
  resource_members r =
      (codes "wood", number r.wood)
      ∷ (codes "food", number r.food)
      ∷ (codes "iron", number r.iron)
      ∷ []

  abbrev pub level_member : Text × ℤ → Text × Value
  level_member (camp, level) = (camp, integer level)

  abbrev pub account_members : Account → Umap Text Value
  account_members acc =
      (codes "password", string acc.password)
      ∷ (codes "uuid", string acc.uuid)
      ∷ (codes "resources", object (resource_members acc.resources))
      ∷ (codes "campLevels", object (map level_member acc.camp_levels))
      ∷ []

  abbrev pub account_member : Text × Account → Text × Value
  account_member (user, acc) = (user, object (account_members acc))

  unfoldable pub database_value : Umap Text Account → Value
  database_value accounts = object ((codes "accounts", object (map account_member accounts)) ∷ [])

  -- a loop over `items()` that stores what `convert` makes of each member
  unfoldable pub collect :
      {A : Type 0} → (Value → Outcome A) → Umap Text Value → Umap Text A → Outcome (Umap Text A)
  collect convert [] done = ok done
  collect convert ((key, value) ∷ rest) done = do
    a ← convert value
    collect convert rest (assign key a done)

  unfoldable pub load_resources : Value → Outcome Resources
  load_resources jres = do
    wood ← or_throw json_error (value_uint64 jres (codes "wood") 0)
    food ← or_throw json_error (value_uint64 jres (codes "food") 0)
    iron ← or_throw json_error (value_uint64 jres (codes "iron") 0)
    ok (record { wood = wood; food = food; iron = iron })

  abbrev level : Value → Outcome ℤ
  level value = or_throw json_error (get_int value)

  unfoldable pub load_levels : Value → Outcome (Umap Text ℤ)
  unfolding collect
  load_levels val =
      let levels = (do
        jcl ← or_throw json_error (at val (codes "campLevels"))
        collect level (items jcl) []) in
      if contains_key val (codes "campLevels") then levels else ok []

  unfoldable pub load_account : Value → Outcome Account
  unfolding load_resources load_levels
  load_account val = do
    password ← or_throw json_error (value_string val (codes "password") [])
    uuid ← or_throw json_error (value_string val (codes "uuid") [])
    jres ← or_throw json_error (value_json val (codes "resources") (object []))
    resources ← load_resources jres
    camp_levels ← load_levels val
    ok (record {
      password = password;
      uuid = uuid;
      resources = resources;
      camp_levels = camp_levels;
    })

  -- `in >> top` reads one value and does not look at what follows it.
  unfoldable pub load_accounts : Text → Outcome (Umap Text Account)
  unfolding collect load_account
  load_accounts text = do
    top ← or_throw json_error (json.extract text)
    jacc ← or_throw json_error (value_json top (codes "accounts") (object []))
    collect load_account (items jacc) []
