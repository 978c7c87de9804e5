-- ===== src/Db/Loading.antt =====
-- What `save` writes, `load` reads back (server/inc/JsonDB.hpp).
use net_pixeld.Prelude.{
  ◌+◌, ◌≤◌, length-append, ◌^◌, ◌<◌, ◌≡◌, refl, sym, ap, true, Option, none, some, [], ◌∷◌, ◌++◌,
  map, arith, Text, codes, text_eq, text_eqb, length,
}
use net_pixeld.Prelude.Outcome.{ok, json_error, or_throw}
use net_pixeld.Prelude.Umap.{Umap, find, Distinct}
use net_pixeld.Prelude.Int.{ℤ, FitsInt}
use net_pixeld.Json.{Json, IsLawful}
use net_pixeld.Resource.{Resources}
use net_pixeld.Db.Types.{Account, Db}
use net_pixeld.Db.Uuid.{Generator}
use net_pixeld.Db.File.{save, load}
use net_pixeld.Db.Updates.{construct}
use net_pixeld.Db.Saving.{save-written, take_all}
use net_pixeld.Db.Collect.{Related, collect-items}
use net_pixeld.Db.File.Format.{
  resource_members, account_members, account_member, database_value, load_resources, load_levels,
  load_account, load_accounts,
}

-- The numbers of an account fit their types, and no camp is listed twice.
pub record IsStorable (acc : Account) : Type 0 where
  pub wood_fits : acc.resources.wood < 2 ^ 64
  pub food_fits : acc.resources.food < 2 ^ 64
  pub iron_fits : acc.resources.iron < 2 ^ 64
  pub camps : Distinct acc.camp_levels
  pub levels_fit : (camp : Text) (z : ℤ) → find camp acc.camp_levels ≡ some z → FitsInt z

-- Two accounts that differ at most in the order of their camps.
pub record SameAccount (a b : Account) : Type 0 where
  pub password : a.password ≡ b.password
  pub uuid : a.uuid ≡ b.uuid
  pub resources : a.resources ≡ b.resources
  pub levels : (camp : Text) → find camp a.camp_levels ≡ find camp b.camp_levels

same_entries : {A : Type 0} (o p : Option A) → Related (λ z w. z ≡ w) o p → o ≡ p
same_entries none none r = refl
same_entries none (some b) r = absurd r
same_entries (some a) none r = absurd r
same_entries (some a) (some b) r = ap (λ z. some z) r

module _ (json : Json) (lawful : IsLawful json) where
  open json use {Value, object}

  resource_members-Distinct : (r : Resources) → Distinct (resource_members json r)
  unfolding find text_eqb
  resource_members-Distinct r = (refl, (refl, (refl, tt)))

  account_members-Distinct : (acc : Account) → Distinct (account_members json acc)
  unfolding find text_eqb
  account_members-Distinct acc = (refl, (refl, (refl, (refl, tt))))

  load_resources-object :
      (acc : Account)
      → IsStorable acc
      → load_resources json (object (resource_members json acc.resources)) ≡ ok acc.resources
  unfolding load_resources find text_eqb
  load_resources-object acc s =
      let d = resource_members-Distinct acc.resources in
      rw (
        lawful.value_uint64-object _ (codes "wood") 0 d,
        lawful.get_uint-number 64 acc.resources.wood s.wood_fits,
        lawful.value_uint64-object _ (codes "food") 0 d,
        lawful.get_uint-number 64 acc.resources.food s.food_fits,
        lawful.value_uint64-object _ (codes "iron") 0 d,
        lawful.get_uint-number 64 acc.resources.iron s.iron_fits,
      )

  load_levels-object :
      (acc : Account)
      → IsStorable acc
      → (levels : Umap Text ℤ) × (load_levels json (object (account_members json acc)) ≡ ok levels)
        × ((camp : Text) → find camp levels ≡ find camp acc.camp_levels)
  unfolding load_levels find text_eqb
  load_levels-object acc s =
      let d = account_members-Distinct acc in
      let (levels, e, same) =
        collect-items json lawful json.integer (λ v. or_throw json_error (json.get_int v))
          (λ z w. z ≡ w) acc.camp_levels s.camps
          (λ k z f.
            (z, ap (or_throw json_error) (lawful.get_int-integer z (s.levels_fit k z f)), refl)) in
      (
        levels,
        rw
            (
              lawful.contains_key-object _ (codes "campLevels") d,
              lawful.at-object _ (codes "campLevels") d,
            )
            e,
        λ camp. sym (same_entries _ _ (same camp)),
      )

  load_account-object :
      (acc : Account)
      → IsStorable acc
      → (a : Account) × (load_account json (object (account_members json acc)) ≡ ok a)
        × SameAccount acc a
  unfolding load_account find text_eqb
  load_account-object acc s =
      let d = account_members-Distinct acc in
      let (levels, e, same) = load_levels-object acc s in
      (
        record acc { camp_levels = levels },
        rw (
          lawful.value_string-object _ (codes "password") [] d,
          lawful.get_string-string acc.password,
          lawful.value_string-object _ (codes "uuid") [] d,
          lawful.get_string-string acc.uuid,
          lawful.value_json-object _ (codes "resources") (object []) d,
          load_resources-object acc s,
          e,
        ),
        record { password = refl; uuid = refl; resources = refl; levels = λ camp. sym (same camp) },
      )

  -- Whatever text holds the accounts, `load` of it returns the same users with the same accounts, up
  -- to the order of users and camps.
  pub load_accounts-database_value :
      (accounts : Umap Text Account) (text : Text)
      → json.extract text ≡ some (database_value json accounts)
      → Distinct accounts
      → ((user : Text) (acc : Account) → find user accounts ≡ some acc → IsStorable acc)
      → (new : Umap Text Account) × (load_accounts json text ≡ ok new)
        × ((user : Text) → Related SameAccount (find user accounts) (find user new))
  unfolding load_accounts database_value find text_eqb
  load_accounts-database_value accounts text parsed d s =
      let (new, e, same) =
        collect-items json lawful (λ acc. object (account_members json acc)) (load_account json)
          SameAccount accounts d (λ k acc f. load_account-object acc (s k acc f)) in
      (
        new,
        rw
            (
              parsed,
              lawful.value_json-object
                  ((codes "accounts", object (map (account_member json) accounts)) ∷ [])
                  (codes "accounts") (object []) (refl, tt),
            )
            e,
        same,
      )

  -- With a JSON library as documented, accounts that can be dumped, with different names and numbers
  -- that fit their types, and a disk that opens and renames files and has room: save returns, and a
  -- JsonDB constructed on the file has the same users with the same accounts, up to the order of
  -- users and camps.
  pub construct-save :
      (db : Db) (generator : Generator) (text : Text)
      → json.dump_indented (database_value json db.accounts) ≡ some text
      → db.disk.can_open ≡ true
      → db.disk.can_rename ≡ true
      → length text + 1 ≤ db.disk.room
      → Distinct db.accounts
      → ((user : Text) (acc : Account) → find user db.accounts ≡ some acc → IsStorable acc)
      → ((save json db).0 ≡ ok tt)
        × (new : Db) × (construct json db.filepath (save json db).1.disk generator ≡ ok new)
        × ((user : Text) → Related SameAccount (find user db.accounts) (find user new.accounts))
  unfolding construct load
  construct-save db generator text dumped opens renames room d s =
      let (returned, written) = save-written json db text dumped opens renames in
      let whole =
        take_all db.disk.room (text ++ 10 ∷ []) (omega (arith, length-append text (10 ∷ []))) in
      let (accounts, e, same) =
        load_accounts-database_value db.accounts (text ++ 10 ∷ [])
          (lawful.extract-dump_indented _ text [] dumped) d s in
      (
        returned,
        record {
          filepath = db.filepath;
          accounts = accounts;
          disk = (save json db).1.disk;
          generator = generator;
        },
        rw (written, whole, e),
        same,
      )
