-- ===== src/Disk.antt =====
-- The files that JsonDB reads and writes through `std::ifstream`, `std::ofstream` and
-- `std::filesystem::rename`, with the failures that these report by their state or by a throw.
pub mod Laws
use net_pixeld.Prelude.{ℕ, Bool, Option, none, some, [], ◌++◌, Text, text_eq, if◌then◌else◌, take}
use net_pixeld.Prelude.Outcome.{Outcome, ok, throw, filesystem_error}
use net_pixeld.Prelude.Exec.{Exec}
use net_pixeld.Prelude.Umap.{Umap, find, assign, erase}

pub record Disk : Type 0 where
  pub files : Umap Text Text
  -- files can be opened for writing; `rename` succeeds
  pub can_open : Bool
  pub can_rename : Bool
  -- the bytes that a file can take before the disk is full
  pub room : ℕ

-- `std::ifstream in(path)`: none is a stream in a failed state.
unfoldable pub read_file : Text → Disk → Option Text
read_file path disk = find path disk.files

-- `std::ofstream out(path)`: an open file is empty; a failure is only noted in the stream.
unfoldable pub open_file : Text → Disk → Disk
open_file path disk =
    if disk.can_open then record disk { files = assign path [] disk.files } else disk

-- `out << text` and the destructor: what does not fit is lost without an exception.
unfoldable pub write_file : Text → Text → Disk → Disk
write_file path text disk =
    if disk.can_open
    then record disk { files = assign path (take disk.room text) disk.files }
    else disk

abbrev move : Text → Text → Disk → Option Text → Outcome (Unit {0}) × Disk
move from to disk none = (throw filesystem_error, disk)
move from to disk (some text) =
    (ok tt, record disk { files = assign to text (erase from disk.files) })

-- `std::filesystem::rename(from, to)`
unfoldable pub rename : Text → Text → Exec Disk (Unit {0})
rename from to disk =
    if disk.can_rename
    then move from to disk (find from disk.files)
    else (throw filesystem_error, disk)
