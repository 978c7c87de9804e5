-- ===== src/Db/Loaded.antt =====
-- What `load` of `JsonDB` reads is valid UTF-8, so it can be saved again (server/inc/JsonDB.hpp).
use net_pixeld.Prelude.{
  ◌≡◌, refl, subst, inl, inr, some, true, [], ◌∷◌, All, arith, Text, codes, text_eq, Option-cases,
  Bool-cases,
}
use net_pixeld.Prelude.Outcome.{Outcome, ok, throw, crash, json_error, or_throw}
use net_pixeld.Prelude.Umap.{Umap, assign, assign-All, Distinct, assign-Distinct}
use net_pixeld.Prelude.Int.{ℤ}
use net_pixeld.Json.{Json, IsLawful}
use net_pixeld.Disk.{Disk, read_file}
use net_pixeld.Db.Uuid.{Generator, InRange}
use net_pixeld.Db.Types.{Account, Db}
use net_pixeld.Db.File.{load}
use net_pixeld.Db.File.Format.{collect, load_levels, load_account, load_accounts}
use net_pixeld.Db.Updates.{construct}
use net_pixeld.Db.Encodable.{IsEncodable, IsUtf8Entry}
use net_pixeld.Db.Totality.{CanSave}

module _ (json : Json) (lawful : IsLawful json) where
  open json use {Value, IsUtf8, at, items, contains_key, value_json, value_string, object}

  collect-All :
      {A : Type 0} (P : Text × A → Type 0) (convert : Value → Outcome A)
      → ((k : Text) (v : Value) (a : A)
          → IsEncodable json k
          → IsUtf8 v
          → convert v ≡ ok a
          → P (k, a))
      → (m : Umap Text Value) (done new : Umap Text A)
      → All (λ (k, v). IsEncodable json k × IsUtf8 v) m
      → All P done
      → collect json convert m done ≡ ok new
      → All P new
  unfolding collect
  collect-All P convert each [] done new u h e = let same : done ≡ new = cc in subst (All P) same h
  collect-All {A} P convert each ((k, v) ∷ m) done new u h e =
      go (convert v) refl
        (λ a kept rest. collect-All P convert each m (assign k a done) new u.1 kept rest)
    where
      go :
          (r : Outcome A)
          → convert v ≡ r
          → ((a : A)
              → All P (assign k a done)
              → collect json convert m (assign k a done) ≡ ok new
              → All P new)
          → All P new
      go (ok a) f later =
          later a (assign-All P k a done (each k v a u.0.0 u.0.1 f) h) (ground (arith, f, e))
      go (throw x) f later = ground (arith, f, e)
      go crash f later = ground (arith, f, e)

  load_levels-IsEncodable :
      (val : Value) (levels : Umap Text ℤ)
      → IsUtf8 val
      → load_levels json val ≡ ok levels
      → All (λ (c : Text × ℤ). IsEncodable json c.0) levels
  unfolding load_levels
  load_levels-IsEncodable val levels u e =
      elim (Bool-cases (contains_key val (codes "campLevels"))) [
        | inr missing ↦
            let same : [] ≡ levels = ground (arith, missing, e) in
            subst (All (λ (c : Text × ℤ). IsEncodable json c.0)) same tt
        | inl there ↦ elim (Option-cases (at val (codes "campLevels"))) [
          | inl bad ↦ ground (arith, there, bad, e)
          | inr (jcl, found) ↦
              collect-All (λ c. IsEncodable json c.0) (λ v. or_throw json_error (json.get_int v))
                (λ k v z i _ _. i) (items jcl) [] levels
                (lawful.items-IsUtf8 jcl (lawful.at-IsUtf8 val jcl _ u found)) tt
                (ground (arith, there, found, e))
        ]
      ]

  load_account-IsUtf8Entry :
      (user : Text) (val : Value) (acc : Account)
      → IsEncodable json user
      → IsUtf8 val
      → load_account json val ≡ ok acc
      → IsUtf8Entry json (user, acc)
  unfolding load_account
  load_account-IsUtf8Entry user val acc i u e =
      let password : value_string val (codes "password") [] ≡ some acc.password =
        ground (arith, e) in
      let uuid : value_string val (codes "uuid") [] ≡ some acc.uuid = ground (arith, e) in
      let levels : load_levels json val ≡ ok acc.camp_levels = ground (arith, e) in
      record {
        user = i;
        password = lawful.value_string-IsUtf8 val _ [] acc.password u nothing password;
        uuid = lawful.value_string-IsUtf8 val _ [] acc.uuid u nothing uuid;
        camps = load_levels-IsEncodable val acc.camp_levels u levels;
      }
    where
      nothing : IsEncodable json []
      nothing = lawful.IsUtf8-string [] tt

  load_accounts-IsUtf8Entry :
      (text : Text) (accounts : Umap Text Account)
      → load_accounts json text ≡ ok accounts
      → All (IsUtf8Entry json) accounts
  unfolding load_accounts
  load_accounts-IsUtf8Entry text accounts e = elim (Option-cases (json.extract text)) [
    | inl bad ↦ ground (arith, bad, e)
    | inr (top, parsed) ↦ elim (Option-cases (value_json top (codes "accounts") (object []))) [
      | inl bad ↦ ground (arith, parsed, bad, e)
      | inr (jacc, found) ↦
          let whole = lawful.extract-IsUtf8 text top parsed in
          let part =
            lawful.value_json-IsUtf8 top (object []) jacc (codes "accounts") whole
              (lawful.IsUtf8-object [] tt) found in
          collect-All (IsUtf8Entry json) (load_account json)
            (λ user val acc i u a. load_account-IsUtf8Entry user val acc i u a) (items jacc) []
            accounts (lawful.items-IsUtf8 jacc part) tt (ground (arith, parsed, found, e))
    ]
  ]

  -- A JsonDB that is constructed on a disk that opens and renames files can save.
  pub construct-CanSave :
      (filepath : Text) (disk : Disk) (generator : Generator) (db : Db)
      → disk.can_open ≡ true
      → disk.can_rename ≡ true
      → InRange generator
      → construct json filepath disk generator ≡ ok db
      → CanSave json db
  unfolding construct load
  construct-CanSave filepath disk generator db opens renames draws e =
      elim (Option-cases (read_file filepath disk)) [
        | inl missing ↦
            let same : start [] ≡ db = ground (arith, missing, e) in
            subst (CanSave json) same (made [] tt)
        | inr (text, there) ↦
            let loaded : load_accounts json text ≡ ok db.accounts = ground (arith, there, e) in
            let same : start db.accounts ≡ db = ground (arith, there, e, loaded) in
            subst (CanSave json) same
              (made db.accounts (load_accounts-IsUtf8Entry text db.accounts loaded))
      ]
    where
      start : Umap Text Account → Db
      start accounts = record {
        filepath = filepath;
        accounts = accounts;
        disk = disk;
        generator = generator;
      }

      made :
          (accounts : Umap Text Account)
          → All (IsUtf8Entry json) accounts
          → CanSave json (start accounts)
      made accounts h = record { opens = opens; renames = renames; storable = h; draws = draws }

-- The accounts that a JsonDB is constructed with have different names.
module _ (json : Json) where
  open json use {Value, items, value_json, object}

  collect-Distinct :
      {A : Type 0} (convert : Value → Outcome A) (m : Umap Text Value) (done new : Umap Text A)
      → Distinct done
      → collect json convert m done ≡ ok new
      → Distinct new
  unfolding collect
  collect-Distinct convert [] done new d e =
      let same : done ≡ new = cc in subst (λ n. Distinct n) same d
  collect-Distinct {A} convert ((k, v) ∷ m) done new d e =
      go (convert v) refl (λ a rest.
        collect-Distinct convert m (assign k a done) new (assign-Distinct k a done d) rest)
    where
      go :
          (r : Outcome A)
          → convert v ≡ r
          → ((a : A) → collect json convert m (assign k a done) ≡ ok new → Distinct new)
          → Distinct new
      go (ok a) f later = later a (ground (arith, f, e))
      go (throw x) f later = ground (arith, f, e)
      go crash f later = ground (arith, f, e)

  load_accounts-Distinct :
      (text : Text) (accounts : Umap Text Account)
      → load_accounts json text ≡ ok accounts
      → Distinct accounts
  unfolding load_accounts
  load_accounts-Distinct text accounts e = elim (Option-cases (json.extract text)) [
    | inl bad ↦ ground (arith, bad, e)
    | inr (top, parsed) ↦ elim (Option-cases (value_json top (codes "accounts") (object []))) [
      | inl bad ↦ ground (arith, parsed, bad, e)
      | inr (jacc, found) ↦
          collect-Distinct (load_account json) (items jacc) [] accounts tt
            (ground (arith, parsed, found, e))
    ]
  ]

  pub construct-Distinct :
      (filepath : Text) (disk : Disk) (generator : Generator) (db : Db)
      → construct json filepath disk generator ≡ ok db
      → Distinct db.accounts
  unfolding construct load
  construct-Distinct filepath disk generator db e = elim (Option-cases (read_file filepath disk)) [
    | inl missing ↦
        let same : [] ≡ db.accounts = ground (arith, missing, e) in
        subst (λ (m : Umap Text Account). Distinct m) same tt
    | inr (text, there) ↦ load_accounts-Distinct text db.accounts (ground (arith, there, e))
  ]
