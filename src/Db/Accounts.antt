-- ===== src/Db/Accounts.antt =====
-- What the queries of `JsonDB` return after its updates (server/inc/JsonDB.hpp), whether or not the
-- file could be written: the accounts in memory change before `save` is called.
use net_pixeld.Prelude.{
  ◌≡◌, refl, ap, ◌∙◌, true, false, none, some, ◌++◌, arith, Text, codes, text_eq, text_eqb_iff,
  ◌==◌, if◌then◌else◌, ◌&&◌,
}
use net_pixeld.Prelude.Outcome.{Outcome, ok, throw, crash, runtime_error}
use net_pixeld.Prelude.Exec.{continue}
use net_pixeld.Prelude.Umap.{find, assign, find-assign, beq_refl}
use net_pixeld.Prelude.Int.{ℤ}
use net_pixeld.Json.{Json}
use net_pixeld.Resource.{Resources}
use net_pixeld.Db.Uuid.{generate_uuid}
use net_pixeld.Db.Types.{Account, Db}
use net_pixeld.Db.Queries.{
  user_exists, verify_user, find_uuid, get_resources, get_camp_level, uuid_not_found,
}
use net_pixeld.Db.File.{save}
use net_pixeld.Db.Updates.{add_user, update_resources, set_camp_level, new_account}
use net_pixeld.Db.Lookup.{find_uuid-update_uuid, update_uuid-none, update_uuid-some}

-- `call(); return a;`
abbrev pub returning : {A S : Type 0} → A → Outcome (Unit {0}) × S → Outcome A × S
returning a (ok _, s) = (ok a, s)
returning a (throw x, s) = (throw x, s)
returning a (crash, s) = (crash, s)

pub returning-state : {A S : Type 0} (a : A) (r : Outcome (Unit {0}) × S) → (returning a r).1 ≡ r.1
returning-state a (ok _, s) = refl
returning-state a (throw x, s) = refl
returning-state a (crash, s) = refl

returning_cases :
    {A S : Type 0} (a : A) (r : Outcome (Unit {0}) × S)
    → continue r (λ _. λ s. (ok a, s)) ≡ returning a r
returning_cases a (ok _, s) = refl
returning_cases a (throw x, s) = refl
returning_cases a (crash, s) = refl

found_exists :
    (username : Text) (db : Db) (acc : Account)
    → find username db.accounts ≡ some acc
    → user_exists username db ≡ true
unfolding user_exists
found_exists username db acc e = ap (λ o. elim o [ none ↦ false | some v ↦ true ]) e

module _ (json : Json) where
  -- `save` leaves the accounts alone, on every path.
  pub accounts-save : (db : Db) → (save json db).1.accounts ≡ db.accounts
  unfolding save
  accounts-save db = ground arith

  pub filepath-save : (db : Db) → (save json db).1.filepath ≡ db.filepath
  unfolding save
  filepath-save db = ground arith

  pub generator-save : (db : Db) → (save json db).1.generator ≡ db.generator
  unfolding save
  generator-save db = ground arith

  -- After updateResources of a known uuid, getResources returns the new resources for that uuid and
  -- what it returned before for every other.
  pub get_resources-update_resources :
      (db : Db) (uuid v : Text) (r : Resources) (acc : Account)
      → find_uuid uuid db.accounts ≡ some acc
      → get_resources v (update_resources json uuid r db).1
        ≡ (if uuid == v then ok r else get_resources v db)
  unfolding get_resources update_resources
  get_resources-update_resources db uuid v r acc h =
      let f = λ (acc : Account). record acc { resources = r } in
      let (new, e) = update_uuid-some uuid f db.accounts acc h in
      let after = find_uuid-update_uuid uuid f (λ a. refl) v db.accounts new e in
      rw (e, accounts-save (record db { accounts = new }), after)
        (ground (arith, text_eqb_iff uuid v))

  -- After setCampLevel of a known uuid, getCampLevel returns the new level for that uuid and camp,
  -- and what it returned before for every other pair.
  pub get_camp_level-set_camp_level :
      (db : Db) (uuid v camp c : Text) (level : ℤ) (acc : Account)
      → find_uuid uuid db.accounts ≡ some acc
      → get_camp_level v c (set_camp_level json uuid camp level db).1
        ≡ (if uuid == v && camp == c then ok level else get_camp_level v c db)
  unfolding get_camp_level set_camp_level
  get_camp_level-set_camp_level db uuid v camp c level acc h =
      let f = λ (acc : Account). record acc { camp_levels = assign camp level acc.camp_levels } in
      let (new, e) = update_uuid-some uuid f db.accounts acc h in
      let after = find_uuid-update_uuid uuid f (λ a. refl) v db.accounts new e in
      rw (e, accounts-save (record db { accounts = new }), after)
        (ground (arith, text_eqb_iff uuid v, find-assign camp c level acc.camp_levels))

  -- For an unknown uuid updateResources and setCampLevel throw the same runtime_error and change
  -- nothing.
  pub update-unknown :
      (db : Db) (uuid camp : Text) (r : Resources) (level : ℤ)
      → find_uuid uuid db.accounts ≡ none
      → (update_resources json uuid r db ≡ (throw (uuid_not_found uuid), db))
        × (set_camp_level json uuid camp level db ≡ (throw (uuid_not_found uuid), db))
  unfolding update_resources set_camp_level
  update-unknown db uuid camp r level h =
      (rw (update_uuid-none uuid _ db.accounts h), rw (update_uuid-none uuid _ db.accounts h))

  pub add_user-taken :
      (db : Db) (username password : Text)
      → user_exists username db ≡ true
      → add_user json username password db
        ≡ (throw (runtime_error (codes "User already exists: " ++ username)), db)
  unfolding add_user user_exists
  add_user-taken db username password h = ground arith

  -- what addUser has in memory when it calls `save`
  abbrev pub registered : Text → Text → Db → Db
  registered username password db =
      let (uuid, generator) = generate_uuid db.generator in
      record db {
        accounts = assign username (new_account password uuid) db.accounts;
        generator = generator;
      }

  pub add_user-register :
      (db : Db) (username password : Text)
      → user_exists username db ≡ false
      → add_user json username password db
        ≡ returning (generate_uuid db.generator).0 (save json (registered username password db))
  unfolding add_user user_exists
  add_user-register db username password h = ground (
    arith,
    returning_cases (generate_uuid db.generator).0 (save json (registered username password db)),
  )

  -- addUser of a free name stores the account under the next uuid and leaves every other user alone,
  -- also when save throws; it returns the uuid where save returns, and throws what save throws.
  pub add_user-free :
      (db : Db) (username password : Text)
      → user_exists username db ≡ false
      → let uuid = (generate_uuid db.generator).0 in
        let after = add_user json username password db in
        (after.0 ≡ (returning uuid (save json (registered username password db))).0)
        × ((u : Text)
            → find u after.1.accounts
              ≡ (if username == u then some (new_account password uuid) else find u db.accounts))
  add_user-free db username password h =
      let uuid = (generate_uuid db.generator).0 in
      let saved = save json (registered username password db) in
      let e = add_user-register db username password h in
      (
        ap (λ r. r.0) e,
        λ u.
            ap (λ r. find u r.1.accounts) e
            ∙ ap (λ d. find u d.accounts) (returning-state uuid saved)
            ∙ ap (find u) (accounts-save (registered username password db))
            ∙ find-assign username u (new_account password uuid) db.accounts,
      )

  -- After addUser of a free name, whether or not it threw, a second addUser of the name throws and
  -- changes nothing, and verifyUser then accepts for the name the first password and no other.
  pub add_user-again :
      (db : Db) (username first second : Text)
      → user_exists username db ≡ false
      → let once = (add_user json username first db).1 in
        let again = add_user json username second once in
        (again.0 ≡ throw (runtime_error (codes "User already exists: " ++ username)))
        × (again.1 ≡ once)
        × ((password : Text) → verify_user username password again.1 ≡ (first == password))
  unfolding verify_user
  add_user-again db username first second h =
      let once = (add_user json username first db).1 in
      let account = new_account first (generate_uuid db.generator).0 in
      let stored : find username once.accounts ≡ some account =
        (add_user-free db username first h).1 username
        ∙ ap (λ b. if b then some account else find username db.accounts) (beq_refl username) in
      let refused =
        add_user-taken once username second (found_exists username once account stored) in
      rw (refused, stored) (refl, refl, λ password. refl)
