-- ===== src/Db/Types.antt =====
-- The members of `JsonDB` (server/inc/JsonDB.hpp). `std::unordered_map` iterates in the order of the
-- list, of which nothing is assumed. Strings are byte sequences.
use net_pixeld.Prelude.{Text}
use net_pixeld.Prelude.Umap.{Umap}
use net_pixeld.Prelude.Int.{ℤ}
use net_pixeld.Resource.{Resources}
use net_pixeld.Disk.{Disk}
use net_pixeld.Db.Uuid.{Generator}

-- `struct Account`; a level is an `int`.
pub record Account : Type 0 where
  pub password : Text
  pub uuid : Text
  pub resources : Resources
  pub camp_levels : Umap Text ℤ

-- The object, with the disk and the random generator that its methods use.
pub record Db : Type 0 where
  pub filepath : Text
  pub accounts : Umap Text Account
  pub disk : Disk
  pub generator : Generator
