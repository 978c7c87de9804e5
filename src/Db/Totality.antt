-- ===== src/Db/Totality.antt =====
-- Where `save`, updateResources and addUser return (server/inc/JsonDB.hpp).
use net_pixeld.Prelude.{
  ◌≡◌, refl, ◌∙◌, inl, inr, some, [], ◌∷◌, ◌++◌, All, true, false, Text, text_eq, Option-cases,
}
use net_pixeld.Prelude.Outcome.{Outcome, ok, throw, crash}
use net_pixeld.Prelude.Umap.{assign-All}
use net_pixeld.Json.{Json, IsLawful}
use net_pixeld.Resource.{Resources}
use net_pixeld.Disk.{open_file, write_file}
use net_pixeld.Disk.Laws.{open_file-flags, write_file-flags, rename-flags}
use net_pixeld.Db.Uuid.{InRange, generate_uuid, generate_uuid-IsAscii}
use net_pixeld.Db.Types.{Account, Db}
use net_pixeld.Db.Queries.{find_uuid, user_exists}
use net_pixeld.Db.File.{save, temporary}
use net_pixeld.Db.File.Format.{database_value}
use net_pixeld.Db.Updates.{update_resources, add_user, new_account}
use net_pixeld.Db.Lookup.{update_uuid-some}
use net_pixeld.Db.Accounts.{accounts-save, generator-save, returning, registered, add_user-register}
use net_pixeld.Db.Saving.{save-written}
use net_pixeld.Db.Encodable.{IsEncodable, IsUtf8Entry, update_uuid-IsUtf8Entry, database-IsUtf8}

module _ (json : Json) where
  -- Files can be opened and renamed, and every text of the accounts is valid UTF-8; the
  -- draws of the generator are `uint64_t`.
  pub record CanSave (db : Db) : Type 0 where
    pub opens : db.disk.can_open ≡ true
    pub renames : db.disk.can_rename ≡ true
    pub storable : All (IsUtf8Entry json) db.accounts
    pub draws : InRange db.generator

  save-flags :
      (db : Db)
      → ((save json db).1.disk.can_open ≡ db.disk.can_open)
        × ((save json db).1.disk.can_rename ≡ db.disk.can_rename)
  unfolding save
  save-flags db =
      let tmp = temporary db.filepath in
      let disk = open_file tmp db.disk in
      let kept = open_file-flags tmp db.disk in
      elim (Option-cases (json.dump_indented (database_value json db.accounts))) [
        | inl e ↦ rw e (kept.0, kept.1)
        | inr (text, e) ↦
            let now = write_file-flags tmp (text ++ 10 ∷ []) disk in
            let last = rename-flags tmp db.filepath (write_file tmp (text ++ 10 ∷ []) disk) in
            rw e (last.0 ∙ now.0 ∙ kept.0, last.1 ∙ now.1 ∙ kept.1)
      ]

  returned :
      (uuid : Text) (r : Outcome (Unit {0}) × Db)
      → r.0 ≡ ok tt
      → CanSave r.1
      → ((returning uuid r).0 ≡ ok uuid) × CanSave (returning uuid r).1
  returned uuid (ok _, db) e h = (refl, h)
  returned uuid (throw x, db) e h = cc
  returned uuid (crash, db) e h = cc

  save-CanSave : (db : Db) → CanSave db → CanSave (save json db).1
  save-CanSave db h = record {
    opens = (save-flags db).0 ∙ h.opens;
    renames = (save-flags db).1 ∙ h.renames;
    storable = rw (accounts-save json db) h.storable;
    draws = rw (generator-save json db) h.draws;
  }

  module _ (lawful : IsLawful json) where
    save_total : (db : Db) → CanSave db → (save json db).0 ≡ ok tt
    save_total db h =
        let (text, dumped) =
          lawful.dump_indented_total _ (database-IsUtf8 json lawful db.accounts h.storable) in
        (save-written json db text dumped h.opens h.renames).0

    -- updateResources of an account's uuid returns.
    pub update_resources_total :
        (uuid : Text) (r : Resources) (db : Db) (acc : Account)
        → find_uuid uuid db.accounts ≡ some acc
        → CanSave db
        → ((update_resources json uuid r db).0 ≡ ok tt)
          × CanSave (update_resources json uuid r db).1
    unfolding update_resources
    update_resources_total uuid r db acc e h =
        let f = λ (a : Account). record a { resources = r } in
        let (new, changed) = update_uuid-some uuid f db.accounts acc e in
        let after : CanSave (record db { accounts = new }) = record {
          opens = h.opens;
          renames = h.renames;
          storable =
              update_uuid-IsUtf8Entry json uuid f
                (λ user a s. record {
                  user = s.user;
                  password = s.password;
                  uuid = s.uuid;
                  camps = s.camps;
                })
                db.accounts new changed h.storable;
          draws = h.draws;
        } in
        rw changed (save_total (record db { accounts = new }) after, save-CanSave _ after)

    -- addUser of a new user with a valid name and password returns.
    pub add_user_total :
        (user pass : Text) (db : Db)
        → user_exists user db ≡ false
        → IsEncodable json user
        → IsEncodable json pass
        → CanSave db
        → ((add_user json user pass db).0 ≡ ok (generate_uuid db.generator).0)
          × CanSave (add_user json user pass db).1
    unfolding generate_uuid
    add_user_total user pass db free u p h =
        let uuid = (generate_uuid db.generator).0 in
        let ascii_uuid = lawful.IsUtf8-string uuid (generate_uuid-IsAscii db.generator h.draws) in
        let made : IsUtf8Entry json (user, new_account pass uuid) = record {
          user = u;
          password = p;
          uuid = ascii_uuid;
          camps = tt;
        } in
        let after : CanSave (registered json user pass db) = record {
          opens = h.opens;
          renames = h.renames;
          storable =
              assign-All (IsUtf8Entry json) user (new_account pass uuid) db.accounts made
                h.storable;
          draws = h.draws;
        } in
        rw (add_user-register json db user pass free) (
          returned uuid (save json (registered json user pass db)) (save_total _ after)
            (save-CanSave _ after))
