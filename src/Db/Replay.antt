-- ===== src/Db/Replay.antt =====
-- Any sequence of calls that change accounts against the abstract store (server/inc/JsonDB.hpp).
use mathlib.Core.Option
use mathlib.Core.Path.{fun_ext}
use net_pixeld.Prelude.{
  ◌≡◌, ◌≢◌, refl, sym, ap, ◌∙◌, subst, ◌⊎◌, inl, inr, Option, none, some, List, [], ◌∷◌, arith,
  Text, text_eq, text_eqb_iff, ◌==◌, Option-cases, Bool-cases,
}
use net_pixeld.Prelude.Umap.{Umap, find, assign, Distinct, assign-Distinct}
use net_pixeld.Json.{Json}
use net_pixeld.Db.Uuid.{generate_uuid}
use net_pixeld.Db.Types.{Account, Db}
use net_pixeld.Db.Queries.{update_uuid, user_exists}
use net_pixeld.Db.Updates.{update_resources, set_camp_level}
use net_pixeld.Db.Lookup.{Distinct-update_uuid}
use net_pixeld.Db.Accounts.{accounts-save, add_user-taken}
use net_pixeld.Db.Known.{accounts-add_user}
use net_pixeld.Db.Refinement.{
  Store, Op, adds, gives, levels, on_uuid, specified, IsUnique, perform, perform_refines,
}

-- No account has the uuid.
abbrev pub IsUnused : Text → Umap Text Account → Type 0
IsUnused uuid m = (v : Text) (a : Account) → find v m ≡ some a → a.uuid ≢ uuid

-- the user that a call may add
abbrev added : Op → Text
added (adds user pass) = user
added _ = []

changed_from :
    (uuid : Text) (f : Account → Account) (o : Option Account) (a : Account)
    → ((acc : Account) → (f acc).uuid ≡ acc.uuid)
    → Option.map (on_uuid uuid f) o ≡ some a
    → (old : Account) × (o ≡ some old) × (a.uuid ≡ old.uuid)
changed_from uuid f none a keeps e = cc
changed_from uuid f (some old) a keeps e = elim (Bool-cases (old.uuid == uuid)) [
  | inl hit ↦ (old, refl, ground (arith, e, hit, keeps old))
  | inr miss ↦ (old, refl, ground (arith, e, miss))
]

-- Where an account after a call comes from.
specified_from :
    (op : Op) (uuid v : Text) (store : Store) (a : Account)
    → specified op uuid store v ≡ some a
    → ((old : Account) × (store v ≡ some old) × (a.uuid ≡ old.uuid))
      ⊎ ((v ≡ added op) × (a.uuid ≡ uuid))
specified_from (adds user pass) uuid v store a e = elim (Bool-cases (user == v)) [
  | inl hit ↦ elim (Option-cases (store v)) [
    | inl missing ↦ inr (sym ((text_eqb_iff user v).0 hit), ground (arith, e, hit, missing))
    | inr (old, there) ↦ inl (old, there, ground (arith, e, hit, there))
  ]
  | inr miss ↦ inl (a, ground (arith, e, miss), refl)
]
specified_from (gives u r) uuid v store a e = inl (changed_from u _ (store v) a (λ acc. refl) e)
specified_from (levels u camp level) uuid v store a e =
    inl (changed_from u _ (store v) a (λ acc. refl) e)

module _ (json : Json) where
  perform-IsUnique :
      (op : Op) (db : Db)
      → Distinct db.accounts
      → IsUnique db.accounts
      → IsUnused (generate_uuid db.generator).0 db.accounts
      → IsUnique (perform json op db).accounts
  perform-IsUnique op db d unique unused u v a b e f same =
      let uuid = (generate_uuid db.generator).0 in
      let store : Store = λ w. find w db.accounts in
      let from_u =
        specified_from op uuid u store a (sym (perform_refines json op db u d unique) ∙ e) in
      let from_v =
        specified_from op uuid v store b (sym (perform_refines json op db v d unique) ∙ f) in
      elim from_u [
        | inl (old, there, equal) ↦ elim from_v [
          | inl (old', there', equal') ↦
              unique u v old old' there there' (sym equal ∙ same ∙ equal')
          | inr (_, new) ↦ absurd (unused u old there (sym equal ∙ same ∙ new))
        ]
        | inr (is_added, new) ↦ elim from_v [
          | inl (old', there', equal') ↦ absurd (unused v old' there' (sym equal' ∙ sym same ∙ new))
          | inr (is_added', _) ↦ is_added ∙ sym is_added'
        ]
      ]

  updated-Distinct :
      (uuid : Text) (f : Account → Account) (db after : Db)
      → ((acc : Account) → (f acc).uuid ≡ acc.uuid)
      → Distinct db.accounts
      → ((new : Umap Text Account)
          → update_uuid uuid f db.accounts ≡ some new
          → after.accounts ≡ new)
      → (update_uuid uuid f db.accounts ≡ none → after.accounts ≡ db.accounts)
      → Distinct after.accounts
  updated-Distinct uuid f db after keeps d changed same =
      elim (Option-cases (update_uuid uuid f db.accounts)) [
        | inl e ↦ subst Distinct (sym (same e)) d
        | inr (new, e) ↦
            subst Distinct (sym (changed new e))
              (Distinct-update_uuid uuid f keeps db.accounts new e d)
      ]

  perform-Distinct :
      (op : Op) (db : Db) → Distinct db.accounts → Distinct (perform json op db).accounts
  unfolding perform update_resources set_camp_level user_exists
  perform-Distinct (adds user pass) db d = elim (Option-cases (find user db.accounts)) [
    | inl e ↦
        subst Distinct (sym (accounts-add_user json db user pass (ground (arith, e))))
          (assign-Distinct user _ db.accounts d)
    | inr (a, e) ↦
        subst (λ (r : Db). Distinct r.accounts)
          (sym (ap (λ r. r.1) (add_user-taken json db user pass (ground (arith, e))))) d
  ]
  perform-Distinct (gives uuid r) db d =
      updated-Distinct uuid (λ acc. record acc { resources = r }) db
        (update_resources json uuid r db).1 (λ acc. refl) d
        (λ new e. rw (e, accounts-save json (record db { accounts = new }))) (λ e. rw e)
  perform-Distinct (levels uuid camp level) db d =
      updated-Distinct uuid (λ acc. record acc { camp_levels = assign camp level acc.camp_levels })
        db (set_camp_level json uuid camp level db).1 (λ acc. refl) d
        (λ new e. rw (e, accounts-save json (record db { accounts = new }))) (λ e. rw e)

  -- the calls, one after the other
  unfoldable pub performs : List Op → Db → Db
  performs [] db = db
  performs (op ∷ ops) db = performs ops (perform json op db)

  -- the same calls on a store, with the uuids that are next at each call
  unfoldable pub replayed : List Op → Db → Store → Store
  replayed [] db store = store
  replayed (op ∷ ops) db store =
      replayed ops (perform json op db) (specified op (generate_uuid db.generator).0 store)

  -- At each call the next uuid is no account's.
  abbrev pub IsFresh : List Op → Db → Type 0
  IsFresh [] db = Unit
  IsFresh (op ∷ ops) db =
      IsUnused (generate_uuid db.generator).0 db.accounts × IsFresh ops (perform json op db)

  -- From distinct users and uuids, and where no uuid that is drawn is in use, the accounts after any
  -- sequence of calls of addUser, updateResources and setCampLevel, returning or throwing, are those
  -- of the abstract store, a function from users to accounts, after the same calls.
  pub performs_refine :
      (ops : List Op) (db : Db)
      → Distinct db.accounts
      → IsUnique db.accounts
      → IsFresh ops db
      → (λ u. find u (performs ops db).accounts) ≡ replayed ops db (λ u. find u db.accounts)
  unfolding performs replayed
  performs_refine [] db d unique fresh = refl
  performs_refine (op ∷ ops) db d unique (unused, fresh) =
      let after = perform json op db in
      let step = fun_ext (λ u. perform_refines json op db u d unique) in
      performs_refine ops after (perform-Distinct op db d) (perform-IsUnique op db d unique unused)
        fresh
      ∙ ap (replayed ops after) step
