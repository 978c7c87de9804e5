-- ===== src/Db/Queries.antt =====
-- The const methods of `JsonDB` (server/inc/JsonDB.hpp).
use net_pixeld.Prelude.{
  Bool, false, Option, none, some, not, [], ◌∷◌, ◌++◌, Text, codes, text_eq, ◌==◌, if◌then◌else◌,
}
use net_pixeld.Prelude.Outcome.{Exception, Outcome, ok, throw, runtime_error, or_throw, ◌>>=◌}
use net_pixeld.Prelude.Umap.{Umap, find, contains}
use net_pixeld.Prelude.Int.{ℤ, pos}
use net_pixeld.Resource.{Resources}
use net_pixeld.Db.Types.{Account, Db}

unfoldable pub user_exists : Text → Db → Bool
user_exists username db = contains username db.accounts

abbrev has_password : Text → Option Account → Bool
has_password password none = false
has_password password (some acc) = acc.password == password

unfoldable pub verify_user : Text → Text → Db → Bool
verify_user username password db = has_password password (find username db.accounts)

abbrev uuid_of : Text → Text → Option Account → Outcome Text
uuid_of username password none = throw (runtime_error (codes "User not found: " ++ username))
uuid_of username password (some acc) =
    if not (acc.password == password)
    then throw (runtime_error (codes "Invalid password for " ++ username))
    else ok acc.uuid

unfoldable pub get_user : Text → Text → Db → Outcome Text
get_user username password db = uuid_of username password (find username db.accounts)

-- the loops over the accounts that return at the first match of the uuid
unfoldable pub find_uuid : Text → Umap Text Account → Option Account
find_uuid uuid [] = none
find_uuid uuid ((user, acc) ∷ rest) = if acc.uuid == uuid then some acc else find_uuid uuid rest

-- the loops that change the first account with the uuid; none if there is no match
unfoldable pub update_uuid :
    Text → (Account → Account) → Umap Text Account → Option (Umap Text Account)
update_uuid uuid f [] = none
update_uuid uuid f ((user, acc) ∷ rest) =
    if acc.uuid == uuid
    then some ((user, f acc) ∷ rest)
    else (elim (update_uuid uuid f rest) [ none ↦ none | some new ↦ some ((user, acc) ∷ new) ])

abbrev pub uuid_not_found : Text → Exception
uuid_not_found uuid = runtime_error (codes "UUID not found: " ++ uuid)

unfoldable pub get_resources : Text → Db → Outcome Resources
get_resources uuid db = do
  acc ← or_throw (uuid_not_found uuid) (find_uuid uuid db.accounts)
  ok acc.resources

unfoldable pub get_camp_levels : Text → Db → Outcome (Umap Text ℤ)
get_camp_levels uuid db = do
  acc ← or_throw (uuid_not_found uuid) (find_uuid uuid db.accounts)
  ok acc.camp_levels

abbrev level_or_zero : Option ℤ → ℤ
level_or_zero none = pos 0
level_or_zero (some level) = level

unfoldable pub get_camp_level : Text → Text → Db → Outcome ℤ
unfolding get_camp_levels
get_camp_level uuid camp db = do
  levels ← get_camp_levels uuid db
  ok (level_or_zero (find camp levels))
