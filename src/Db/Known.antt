-- ===== src/Db/Known.antt =====
-- No update of the accounts loses a uuid (server/inc/JsonDB.hpp).
use mathlib.Core.Option
use net_pixeld.Prelude.{
  ◌≡◌, refl, sym, ap, ◌∙◌, subst, inl, inr, false, none, some, [], ◌∷◌, arith, Text, text_eq,
  text_eqb_iff, ◌==◌, Option-cases, Bool-cases,
}
use net_pixeld.Prelude.Outcome.{Outcome, ok, throw, crash}
use net_pixeld.Prelude.Umap.{Umap, find, assign}
use net_pixeld.Json.{Json}
use net_pixeld.Resource.{Resources}
use net_pixeld.Db.Uuid.{generate_uuid}
use net_pixeld.Db.Types.{Account, Db}
use net_pixeld.Db.Queries.{find_uuid, user_exists, get_user}
use net_pixeld.Db.File.{save}
use net_pixeld.Db.Updates.{add_user, update_resources, new_account}
use net_pixeld.Db.Lookup.{find_uuid-update_uuid, update_uuid-none, update_uuid-some}
use net_pixeld.Db.Accounts.{
  accounts-save, registered, returning, returning-state, add_user-register, add_user-taken,
}

-- Some account has the uuid.
abbrev pub Holds : Umap Text Account → Text → Type 0
Holds accounts uuid = (acc : Account) × (find_uuid uuid accounts ≡ some acc)

assign-Holds :
    (name u : Text) (acc : Account) (m : Umap Text Account)
    → find name m ≡ none
    → Holds m u
    → Holds (assign name acc m) u
unfolding find assign find_uuid
assign-Holds name u acc [] e h = cc (h.1)
assign-Holds name u acc ((j, a) ∷ m) e h = elim (Bool-cases (a.uuid == u)) [
  | inl hit ↦ (a, ground arith)
  | inr miss ↦
      let rest = assign-Holds name u acc m (ground arith) (h.0, ground arith) in
      (rest.0, ground (arith, rest.1))
]

assign-Holds_self :
    (name : Text) (acc : Account) (m : Umap Text Account)
    → find name m ≡ none
    → Holds (assign name acc m) acc.uuid
unfolding find assign find_uuid
assign-Holds_self name acc [] e = (acc, ground (arith, text_eqb_iff acc.uuid acc.uuid))
assign-Holds_self name acc ((j, a) ∷ m) e = elim (Bool-cases (a.uuid == acc.uuid)) [
  | inl hit ↦ (a, ground arith)
  | inr miss ↦
      let rest = assign-Holds_self name acc m (ground arith) in (rest.0, ground (arith, rest.1))
]

returning-ok :
    {A S : Type 0} (a b : A) (r : Outcome (Unit {0}) × S) → (returning a r).0 ≡ ok b → a ≡ b
returning-ok a b (ok _, s) e = cc
returning-ok a b (throw x, s) e = cc
returning-ok a b (crash, s) e = cc

pub find-Holds :
    (name : Text) (acc : Account) (m : Umap Text Account)
    → find name m ≡ some acc
    → Holds m acc.uuid
unfolding find find_uuid
find-Holds name acc [] e = cc
find-Holds name acc ((j, a) ∷ m) e = elim (Bool-cases (a.uuid == acc.uuid)) [
  | inl hit ↦ (a, ground arith)
  | inr miss ↦
      let rest = find-Holds name acc m (ground (arith, text_eqb_iff a.uuid acc.uuid)) in
      (rest.0, ground (arith, rest.1))
]

-- The uuid that getUser returns is an account's.
pub get_user-Holds :
    (db : Db) (username password uuid : Text)
    → get_user username password db ≡ ok uuid
    → Holds db.accounts uuid
unfolding get_user
get_user-Holds db username password uuid e = elim (Option-cases (find username db.accounts)) [
  | inl f ↦ ground (arith, f)
  | inr (acc, f) ↦
      let same : acc.uuid ≡ uuid = ground (arith, f) in
      subst (Holds db.accounts) same (find-Holds username acc db.accounts f)
]

module _ (json : Json) where
  -- updateResources keeps every uuid.
  pub update_resources-Holds :
      (db : Db) (uuid u : Text) (r : Resources)
      → Holds db.accounts u
      → Holds (update_resources json uuid r db).1.accounts u
  unfolding update_resources
  update_resources-Holds db uuid u r h =
      let f = λ (acc : Account). record acc { resources = r } in
      elim (Option-cases (find_uuid uuid db.accounts)) [
        | inl e ↦ rw (update_uuid-none uuid f db.accounts e) h
        | inr (acc, e) ↦
            let (new, changed) = update_uuid-some uuid f db.accounts acc e in
            let after = find_uuid-update_uuid uuid f (λ a. refl) u db.accounts new changed in
            rw (changed, accounts-save json (record db { accounts = new }))
              (elim (Bool-cases (uuid == u)) [
                | inl hit ↦ (f h.0, after ∙ rw hit (ap (Option.map f) h.1))
                | inr miss ↦ (h.0, after ∙ rw miss h.1)
              ])
      ]

  pub accounts-add_user :
      (db : Db) (username password : Text)
      → user_exists username db ≡ false
      → (add_user json username password db).1.accounts
        ≡ (registered json username password db).accounts
  accounts-add_user db username password e =
      ap (λ r. r.1.accounts) (add_user-register json db username password e)
      ∙ ap (λ d. d.accounts)
          (returning-state (generate_uuid db.generator).0
            (save json (registered json username password db)))
      ∙ accounts-save json (registered json username password db)

  pub add_user-Holds :
      (db : Db) (username password u : Text)
      → Holds db.accounts u
      → Holds (add_user json username password db).1.accounts u
  unfolding user_exists
  add_user-Holds db username password u h = elim (Bool-cases (user_exists username db)) [
    | inl taken ↦ rw (add_user-taken json db username password taken) h
    | inr free ↦
        rw (accounts-add_user db username password free)
          (assign-Holds username u _ db.accounts (ground arith) h)
  ]

  -- The uuid that addUser returns is an account's.
  pub add_user-returns :
      (db : Db) (username password uuid : Text)
      → (add_user json username password db).0 ≡ ok uuid
      → Holds (add_user json username password db).1.accounts uuid
  unfolding user_exists
  add_user-returns db username password uuid e = elim (Bool-cases (user_exists username db)) [
    | inl taken ↦ cc (e, ap (λ r. r.0) (add_user-taken json db username password taken))
    | inr free ↦
        let same : (generate_uuid db.generator).0 ≡ uuid =
          returning-ok _ uuid (save json (registered json username password db))
            (sym (ap (λ r. r.0) (add_user-register json db username password free)) ∙ e) in
        rw (accounts-add_user db username password free) (
          subst (Holds (registered json username password db).accounts) same (
            assign-Holds_self username (new_account password (generate_uuid db.generator).0)
              db.accounts (ground arith)))
  ]
