-- ===== src/Db/Updates.antt =====
-- The methods of `JsonDB` that change accounts (server/inc/JsonDB.hpp), and its constructor.
use net_pixeld.Prelude.{Option, none, some, [], ◌++◌, Text, codes, text_eq, if◌then◌else◌}
use net_pixeld.Prelude.Outcome
use net_pixeld.Prelude.Outcome.{Outcome, ok, throw, runtime_error}
use net_pixeld.Prelude.Exec.{Exec, ◌>>=◌, ◌>>◌, pure, modify}
use net_pixeld.Prelude.Umap.{Umap, assign, contains}
use net_pixeld.Prelude.Int.{ℤ}
use net_pixeld.Json.{Json}
use net_pixeld.Resource.{Resources, no_resources}
use net_pixeld.Disk.{Disk}
use net_pixeld.Db.Uuid.{Generator, generate_uuid}
use net_pixeld.Db.Types.{Account, Db}
use net_pixeld.Db.Queries.{update_uuid, uuid_not_found}
use net_pixeld.Db.File.{save, load}

abbrev pub new_account : Text → Text → Account
new_account password uuid = record {
  password = password;
  uuid = uuid;
  resources = no_resources;
  camp_levels = [];
}

abbrev fresh_uuid : Exec Db Text
fresh_uuid db =
    let (uuid, generator) = generate_uuid db.generator in
    (ok uuid, record db { generator = generator })

module _ (json : Json) where
  abbrev register : Text → Text → Exec Db Text
  register username password = do
    uuid ← fresh_uuid
    modify (λ db. record db { accounts = assign username (new_account password uuid) db.accounts })
    save json
    pure uuid

  unfoldable pub add_user : Text → Text → Exec Db Text
  add_user username password db =
      if contains username db.accounts
      then (throw (runtime_error (codes "User already exists: " ++ username)), db)
      else register username password db

  -- the end of an update loop: save where an account was changed, throw where none has the uuid
  abbrev changed : Text → Option (Umap Text Account) → Exec Db (Unit {0})
  changed uuid none db = (throw (uuid_not_found uuid), db)
  changed uuid (some accounts) db = save json (record db { accounts = accounts })

  unfoldable pub update_resources : Text → Resources → Exec Db (Unit {0})
  update_resources uuid r db =
      changed uuid (update_uuid uuid (λ acc. record acc { resources = r }) db.accounts) db

  unfoldable pub set_camp_level : Text → Text → ℤ → Exec Db (Unit {0})
  set_camp_level uuid camp level db =
      changed uuid
        (update_uuid uuid (λ acc. record acc { camp_levels = assign camp level acc.camp_levels })
          db.accounts)
        db

  -- JsonDB(filepath)
  unfoldable pub construct : Text → Disk → Generator → Outcome Db
  construct filepath disk generator = Outcome.◌>>=◌ (load json filepath disk) λ accounts.
      ok (record { filepath = filepath; accounts = accounts; disk = disk; generator = generator })
