-- ===== src/Db/Restart.antt =====
-- What a restart of the server changes: the queries after `save` and a construction from the file
-- (server/inc/JsonDB.hpp).
use mathlib.Core.Quot
use mathlib.Core.Quot.{Quot}
use net_pixeld.Prelude.{
  ◌+◌, ◌≤◌, ◌≡◌, refl, sym, ap, subst, ◌∙◌, inl, inr, true, Option, none, some, [], ◌∷◌, arith,
  Text, text_eq, text_eqb_iff, ◌==◌, length, Option-cases, Bool-cases,
}
use net_pixeld.Prelude.Outcome.{ok}
use net_pixeld.Prelude.Umap.{Umap, find, Distinct, beq_refl}
use net_pixeld.Json.{Json, IsLawful}
use net_pixeld.Db.Uuid.{Generator}
use net_pixeld.Db.Types.{Account, Db}
use net_pixeld.Db.Queries.{
  find_uuid, user_exists, verify_user, get_user, get_resources, get_camp_levels, get_camp_level,
}
use net_pixeld.Db.File.{save}
use net_pixeld.Db.File.Format.{database_value}
use net_pixeld.Db.Updates.{construct}
use net_pixeld.Db.Collect.{Related}
use net_pixeld.Db.Known.{Holds, find-Holds}
use net_pixeld.Db.Refinement.{IsUnique, unknown_uuid}
use net_pixeld.Db.Loaded.{construct-Distinct}
use net_pixeld.Db.Loading.{IsStorable, SameAccount, construct-save}

-- The same users with the same accounts, up to the order of users and camps.
abbrev pub SameAccounts : Umap Text Account → Umap Text Account → Type 0
SameAccounts m n = (user : Text) → Related SameAccount (find user m) (find user n)

-- The accounts, without the order of users and camps.
abbrev pub Accounts : Type 0
Accounts = Quot SameAccounts

abbrev pub view : Db → Accounts
view db = Quot.mk db.accounts

-- The account that a query by uuid finds is some user's.
find_uuid-find :
    (uuid : Text) (m : Umap Text Account) (a : Account)
    → Distinct m
    → find_uuid uuid m ≡ some a
    → (user : Text) × (find user m ≡ some a) × (a.uuid ≡ uuid)
unfolding find find_uuid
find_uuid-find uuid [] a d e = cc
find_uuid-find uuid ((name, acc) ∷ rest) a d e = elim (Bool-cases (acc.uuid == uuid)) [
  | inl hit ↦
      let same : acc ≡ a = ground (arith, e, hit) in
      (
        name,
        ground (arith, same, beq_refl name),
        ap (λ b. b.uuid) (sym same) ∙ (text_eqb_iff acc.uuid uuid).0 hit,
      )
  | inr miss ↦
      let (user, found, same) = find_uuid-find uuid rest a d.1 (ground (arith, e, miss)) in
      (user, ground (arith, found, d.0, text_eqb_iff name user), same)
]

Related-some :
    (o p : Option Account) (a : Account)
    → Related SameAccount o p
    → o ≡ some a
    → (b : Account) × (p ≡ some b) × SameAccount a b
Related-some none p a r e = cc
Related-some (some c) none a r e = absurd r
Related-some (some c) (some b) a r e =
    let same : c ≡ a = cc in (b, refl, subst (λ x. SameAccount x b) same r)

some-Related :
    (o p : Option Account) (b : Account)
    → Related SameAccount o p
    → p ≡ some b
    → (a : Account) × (o ≡ some a) × SameAccount a b
some-Related o none b r e = cc
some-Related none (some c) b r e = absurd r
some-Related (some a) (some c) b r e =
    let same : c ≡ b = cc in (a, refl, subst (λ x. SameAccount a x) same r)

-- Queries by uuid find the same account, where users and uuids are distinct.
find_uuid-Related :
    (uuid : Text) (m n : Umap Text Account)
    → Distinct m
    → Distinct n
    → IsUnique m
    → SameAccounts m n
    → Related SameAccount (find_uuid uuid m) (find_uuid uuid n)
find_uuid-Related uuid m n d d' unique same = elim (Option-cases (find_uuid uuid n)) [
  | inr (b, e) ↦
      let (user, found, own) = find_uuid-find uuid n b d' e in
      let (a, before, r) = some-Related (find user m) (find user n) b (same user) found in
      let at : a.uuid ≡ uuid = r.uuid ∙ own in
      let (first, hit) = subst (Holds m) at (find-Holds user a m before) in
      let (other, there, owned) = find_uuid-find uuid m first d hit in
      let one : other ≡ user = unique other user first a there before (owned ∙ sym at) in
      let equal : a ≡ first = cc in rw (hit, e) (subst (λ x. SameAccount x b) equal r)
  | inl missing ↦ elim (Option-cases (find_uuid uuid m)) [
    | inl e ↦ rw (e, missing) tt
    | inr (a, e) ↦
        let (user, found, own) = find_uuid-find uuid m a d e in
        let (b, after, r) = Related-some (find user m) (find user n) a (same user) found in
        let unknown = unknown_uuid uuid user n b missing after in
        let known : b.uuid ≡ uuid = sym r.uuid ∙ own in
        cc (unknown, (text_eqb_iff b.uuid uuid).1 known)
  ]
]

module _ (old new : Db) (same : SameAccounts old.accounts new.accounts) where
  module _ (user pass : Text) where
    login_queries :
        (o p : Option Account)
        → Related SameAccount o p
        → find user old.accounts ≡ o
        → find user new.accounts ≡ p
        → (user_exists user new ≡ user_exists user old)
          × (verify_user user pass new ≡ verify_user user pass old)
          × (get_user user pass new ≡ get_user user pass old)
    unfolding user_exists verify_user get_user
    login_queries none none r e f =
        (ground (arith, e, f), ground (arith, e, f), ground (arith, e, f))
    login_queries none (some b) r e f = absurd r
    login_queries (some a) none r e f = absurd r
    login_queries (some a) (some b) r e f = (
      ground (arith, e, f),
      ground (arith, e, f, r.password),
      ground (arith, e, f, r.password, r.uuid),
    )

  module _ (uuid camp : Text) where
    uuid_queries :
        (o p : Option Account)
        → Related SameAccount o p
        → find_uuid uuid old.accounts ≡ o
        → find_uuid uuid new.accounts ≡ p
        → (get_resources uuid new ≡ get_resources uuid old)
          × (get_camp_level uuid camp new ≡ get_camp_level uuid camp old)
    unfolding get_resources get_camp_level get_camp_levels
    uuid_queries none none r e f = (rw (e, f), rw (e, f))
    uuid_queries none (some b) r e f = absurd r
    uuid_queries (some a) none r e f = absurd r
    uuid_queries (some a) (some b) r e f = (rw (e, f, r.resources), rw (e, f, r.levels camp))

module _ (json : Json) (lawful : IsLawful json) where
  -- With a JSON library as documented, different names and different uuids, numbers that fit their
  -- types, and a disk that can be written and has room: a JsonDB constructed on the file that save
  -- wrote has the same accounts up to the order of users and camps, and userExists, verifyUser,
  -- getUser, getResources and getCampLevel answer as before, whatever they are asked.
  pub restart_lem :
      (db : Db) (generator : Generator) (text user pass uuid camp : Text)
      → json.dump_indented (database_value json db.accounts) ≡ some text
      → db.disk.can_open ≡ true
      → db.disk.can_rename ≡ true
      → length text + 1 ≤ db.disk.room
      → Distinct db.accounts
      → IsUnique db.accounts
      → ((name : Text) (acc : Account) → find name db.accounts ≡ some acc → IsStorable acc)
      → (new : Db) × (construct json db.filepath (save json db).1.disk generator ≡ ok new)
        × (view db ≡ view new)
        × (user_exists user new ≡ user_exists user db)
        × (verify_user user pass new ≡ verify_user user pass db)
        × (get_user user pass new ≡ get_user user pass db)
        × (get_resources uuid new ≡ get_resources uuid db)
        × (get_camp_level uuid camp new ≡ get_camp_level uuid camp db)
  restart_lem db generator text user pass uuid camp dumped opens renames room d unique fits =
      let (_, new, made, same) =
        construct-save json lawful db generator text dumped opens renames room d fits in
      let d' = construct-Distinct json db.filepath (save json db).1.disk generator new made in
      let (exists, verified, got) =
        login_queries db new same user pass (find user db.accounts) (find user new.accounts)
          (same user) refl refl in
      let (resources, level) =
        uuid_queries db new same uuid camp (find_uuid uuid db.accounts)
          (find_uuid uuid new.accounts)
          (find_uuid-Related uuid db.accounts new.accounts d d' unique same) refl refl in
      (new, made, Quot.sound same, exists, verified, got, resources, level)
