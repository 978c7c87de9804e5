-- ===== src/Disk/Laws.antt =====
-- Reading a file after the operations on it.
use net_pixeld.Prelude.{◌≡◌, ◌≢◌, ◌⊎◌, true, some, [], arith, Text, text_eq, text_eqb_iff, take}
use net_pixeld.Prelude.Outcome.{ok, throw, filesystem_error}
use net_pixeld.Prelude.Umap.{find-assign, erase}
use net_pixeld.Disk.{Disk, read_file, open_file, write_file, rename}

module _ (path other : Text) (apart : path ≢ other) (disk : Disk) where
  pub read_file-open_file : read_file other (open_file path disk) ≡ read_file other disk
  unfolding read_file open_file
  read_file-open_file =
      ground (arith, text_eqb_iff path other, find-assign path other [] disk.files)

  pub read_file-write_file :
      (text : Text) → read_file other (write_file path text disk) ≡ read_file other disk
  unfolding read_file write_file
  read_file-write_file text =
      ground
        (arith, text_eqb_iff path other, find-assign path other (take disk.room text) disk.files)

pub read_file-write_self :
    (path text : Text) (disk : Disk)
    → disk.can_open ≡ true
    → read_file path (write_file path text disk) ≡ some (take disk.room text)
unfolding read_file write_file
read_file-write_self path text disk h =
    ground (arith, text_eqb_iff path path, find-assign path path (take disk.room text) disk.files)

-- A rename that throws changes nothing, and it never crashes.
pub rename_outcome :
    (from to : Text) (disk : Disk)
    → ((rename from to disk).0 ≡ ok tt) ⊎ ((rename from to disk) ≡ (throw filesystem_error, disk))
unfolding rename
rename_outcome from to disk = ground arith

pub rename_lem :
    (from to text : Text) (disk : Disk)
    → disk.can_rename ≡ true
    → read_file from disk ≡ some text
    → ((rename from to disk).0 ≡ ok tt) × (read_file to (rename from to disk).1 ≡ some text)
unfolding read_file rename
rename_lem from to text disk h e =
    ground (arith, text_eqb_iff to to, find-assign to to text (erase from disk.files))

pub open_file-flags :
    (path : Text) (disk : Disk)
    → ((open_file path disk).can_open ≡ disk.can_open)
      × ((open_file path disk).can_rename ≡ disk.can_rename)
      × ((open_file path disk).room ≡ disk.room)
unfolding open_file
open_file-flags path disk = ground arith

pub write_file-flags :
    (path text : Text) (disk : Disk)
    → ((write_file path text disk).can_open ≡ disk.can_open)
      × ((write_file path text disk).can_rename ≡ disk.can_rename)
      × ((write_file path text disk).room ≡ disk.room)
unfolding write_file
write_file-flags path text disk = ground arith

pub rename-flags :
    (from to : Text) (disk : Disk)
    → ((rename from to disk).1.can_open ≡ disk.can_open)
      × ((rename from to disk).1.can_rename ≡ disk.can_rename)
      × ((rename from to disk).1.room ≡ disk.room)
unfolding rename
rename-flags from to disk = ground arith
