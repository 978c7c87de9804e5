-- ===== src/Db/File.antt =====
-- `save` and `load` of `JsonDB` (server/inc/JsonDB.hpp), over the JSON library's interface.
pub mod Format
use net_pixeld.Prelude.{Option, none, some, [], ◌∷◌, ◌++◌, Text, codes}
use net_pixeld.Prelude.Outcome.{Outcome, ok, json_error, or_throw}
use net_pixeld.Prelude.Exec.{Exec, ◌>>=◌, ◌>>◌, lift, modify, gets, continue}
use net_pixeld.Prelude.Umap.{Umap}
use net_pixeld.Json.{Json}
use net_pixeld.Disk.{Disk, read_file, open_file, write_file, rename}
use net_pixeld.Db.Uuid.{Generator}
use net_pixeld.Db.Types.{Account, Db}
use Format.{database_value, load_accounts}

-- a call on the disk, as a step of the object
abbrev pub on_disk : {A : Type 0} → Exec Disk A → Exec Db A
on_disk m db = let (result, disk) = m db.disk in (result, record db { disk = disk })

abbrev pub temporary : Text → Text
temporary filepath = filepath ++ codes ".tmp"

module _ (json : Json) where
  -- The text is computed when the temporary file is already open.
  unfoldable pub save : Exec Db (Unit {0})
  save = do
    top ← gets (λ db. database_value json db.accounts)
    tmp ← gets (λ db. temporary db.filepath)
    modify (λ db. record db { disk = open_file tmp db.disk })
    text ← lift (or_throw json_error (json.dump_indented top))
    modify (λ db. record db { disk = write_file tmp (text ++ 10 ∷ []) db.disk })
    filepath ← gets (λ db. db.filepath)
    on_disk (rename tmp filepath)

  abbrev load_file : Option Text → Outcome (Umap Text Account)
  load_file none = ok []
  load_file (some text) = load_accounts json text

  unfoldable pub load : Text → Disk → Outcome (Umap Text Account)
  load filepath disk = load_file (read_file filepath disk)
