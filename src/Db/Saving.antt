-- ===== src/Db/Saving.antt =====
-- `save` of `JsonDB` and the disk (server/inc/JsonDB.hpp): the temporary file and the rename.
use net_pixeld.Prelude.{
  ℕ, zero, suc, ◌≤◌, ◌≡◌, ◌≢◌, refl, ap, inl, inr, true, some, List, [], ◌∷◌, ◌++◌, arith, Text,
  codes, text_eq, Option-cases, ◌∙◌, length, length-append, take,
}
use net_pixeld.Prelude.Outcome.{Exception, ok, throw}
use net_pixeld.Json.{Json}
use net_pixeld.Disk.{read_file, open_file, write_file}
use net_pixeld.Disk.Laws.{
  read_file-open_file, read_file-write_file, read_file-write_self, rename_outcome, rename_lem,
  open_file-flags, write_file-flags,
}
use net_pixeld.Db.Types.{Db}
use net_pixeld.Db.File.{save, temporary}
use net_pixeld.Db.File.Format.{database_value}

pub take_all {ℓ} : {A : Type ℓ} (n : ℕ) (s : List A) → length s ≤ n → take n s ≡ s
take_all zero [] h = refl
take_all zero (x ∷ s) h = absurd (omega arith)
take_all (suc n) [] h = refl
take_all (suc n) (x ∷ s) h = ap (◌∷◌ x) (take_all n s (omega arith))

-- the temporary file is another file
temporary-ne : (path : Text) → temporary path ≢ path
temporary-ne path e =
    absurd (omega (arith, length-append path (codes ".tmp"), ap (length {A = ℕ}) e))

module _ (json : Json) (db : Db) where
  abbrev tmp : Text
  tmp = temporary db.filepath

  opened : read_file db.filepath (open_file tmp db.disk) ≡ read_file db.filepath db.disk
  opened = read_file-open_file tmp db.filepath (temporary-ne db.filepath) db.disk

  written :
      (text : Text)
      → read_file db.filepath (write_file tmp text (open_file tmp db.disk))
        ≡ read_file db.filepath (open_file tmp db.disk)
  written text = read_file-write_file tmp db.filepath (temporary-ne db.filepath) _ text

  -- Where save throws, the accounts file is as it was before.
  pub save-throw :
      (x : Exception)
      → (save json db).0 ≡ throw x
      → read_file db.filepath (save json db).1.disk ≡ read_file db.filepath db.disk
  unfolding save
  save-throw x h = elim (Option-cases (json.dump_indented (database_value json db.accounts))) [
    | inl e ↦ rw e opened
    | inr (text, e) ↦
        let before = written (text ++ 10 ∷ []) in
        ground (
          arith,
          e,
          before,
          opened,
          rename_outcome tmp db.filepath (write_file tmp (text ++ 10 ∷ []) (open_file tmp db.disk)),
        )
  ]

  -- Where files can be opened and renamed and the accounts can be dumped, save returns, and the file
  -- holds as much of the text and its line break as the disk took.
  pub save-written :
      (text : Text)
      → json.dump_indented (database_value json db.accounts) ≡ some text
      → db.disk.can_open ≡ true
      → db.disk.can_rename ≡ true
      → ((save json db).0 ≡ ok tt)
        × (read_file db.filepath (save json db).1.disk ≡ some (take db.disk.room (text ++ 10 ∷ [])))
  unfolding save
  save-written text dumped opens renames =
      let disk = open_file tmp db.disk in
      let new = write_file tmp (text ++ 10 ∷ []) disk in
      let kept = open_file-flags tmp db.disk in
      let now = write_file-flags tmp (text ++ 10 ∷ []) disk in
      let whole = read_file-write_self tmp (text ++ 10 ∷ []) disk (kept.0 ∙ opens) in
      let renamed = rename_lem tmp db.filepath _ new (now.1 ∙ kept.1 ∙ renames) whole in
      rw dumped (renamed.0, renamed.1 ∙ ap (λ n. some (take n (text ++ 10 ∷ []))) kept.2)
