-- ===== src/Tests/Store.antt =====
-- Accounts.
use net_pixeld.Prelude.{
  ◌+◌, ◌≡◌, refl, false, none, some, [], ◌++◌, Text, codes, text_eq, text_eqb, ◌==◌, if◌then◌else◌,
  ◌&&◌,
}
use net_pixeld.Prelude.Outcome.{ok, throw, runtime_error}
use net_pixeld.Prelude.Umap.{find}
use net_pixeld.Prelude.Int.{pos}
use net_pixeld.Json.Tree.{tree_json}
use net_pixeld.Resource.{Resources}
use net_pixeld.Db.Uuid.{generate_uuid, generate_uuid-injective}
use net_pixeld.Db.Queries.{
  find_uuid, user_exists, verify_user, get_resources, get_camp_level, uuid_not_found,
}
use net_pixeld.Db.File.{save}
use net_pixeld.Db.Updates.{add_user, update_resources, set_camp_level, new_account}
use net_pixeld.Db.Accounts.{
  returning, registered, add_user-free, add_user-again, update-unknown,
  get_resources-update_resources, get_camp_level-set_camp_level,
}
use net_pixeld.Tests.Data.{elevens, elevens-InRange, u1, alice, two_accounts}

alice-found : find_uuid u1 two_accounts.accounts ≡ some alice
unfolding find_uuid text_eqb
alice-found = refl

nobody-found : find_uuid [] two_accounts.accounts ≡ none
unfolding find_uuid text_eqb
nobody-found = refl

abbrev rich : Resources
rich = record { wood = 100; food = 100; iron = 100 }

get_resources-update_resources_example :
    get_resources (codes "u2") (update_resources tree_json u1 rich two_accounts).1
    ≡ (if u1 == codes "u2" then ok rich else get_resources (codes "u2") two_accounts)
get_resources-update_resources_example =
    get_resources-update_resources tree_json two_accounts u1 (codes "u2") rich alice alice-found

get_camp_level-set_camp_level_example :
    get_camp_level u1
      (codes "north")
      (set_camp_level tree_json u1 (codes "south") (pos 4) two_accounts).1
    ≡ (if u1 == u1 && codes "south" == codes "north"
        then ok (pos 4)
        else get_camp_level u1 (codes "north") two_accounts)
get_camp_level-set_camp_level_example =
    get_camp_level-set_camp_level tree_json two_accounts u1 u1 (codes "south") (codes "north")
      (pos 4) alice alice-found

update-unknown_example :
    (update_resources tree_json [] rich two_accounts ≡ (throw (uuid_not_found []), two_accounts))
    × (set_camp_level tree_json [] (codes "north") (pos 4) two_accounts
        ≡ (throw (uuid_not_found []), two_accounts))
update-unknown_example =
    update-unknown tree_json two_accounts [] (codes "north") rich (pos 4) nobody-found

carol-free : user_exists (codes "carol") two_accounts ≡ false
unfolding user_exists find text_eqb
carol-free = refl

add_user-again_example :
    let once = (add_user tree_json (codes "carol") (codes "x") two_accounts).1 in
    let again = add_user tree_json (codes "carol") (codes "y") once in
    (again.0 ≡ throw (runtime_error (codes "User already exists: " ++ codes "carol")))
    × (again.1 ≡ once)
    × ((password : Text) → verify_user (codes "carol") password again.1 ≡ (codes "x" == password))
add_user-again_example =
    add_user-again tree_json two_accounts (codes "carol") (codes "x") (codes "y") carol-free

add_user-free_example :
    let uuid = (generate_uuid elevens).0 in
    let after = add_user tree_json (codes "carol") (codes "x") two_accounts in
    (after.0
      ≡ (returning uuid
          (save tree_json (registered tree_json (codes "carol") (codes "x") two_accounts))).0)
    × ((u : Text)
        → find u after.1.accounts ≡ (
            if codes "carol" == u
            then some (new_account (codes "x") uuid)
            else find u two_accounts.accounts))
add_user-free_example = add_user-free tree_json two_accounts (codes "carol") (codes "x") carol-free

generate_uuid-injective_example :
    (elevens.draw elevens.drawn ≡ elevens.draw elevens.drawn)
    × (elevens.draw (elevens.drawn + 1) ≡ elevens.draw (elevens.drawn + 1))
generate_uuid-injective_example =
    generate_uuid-injective elevens elevens elevens-InRange elevens-InRange refl
