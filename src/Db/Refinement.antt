-- ===== src/Db/Refinement.antt =====
-- The methods of `JsonDB` that change accounts against an abstract store, a function from users to
-- accounts (server/inc/JsonDB.hpp).
use mathlib.Core.Option
use net_pixeld.Prelude.{
  ◌≡◌, sym, ap, ◌∙◌, inl, inr, false, Option, none, some, [], ◌∷◌, arith, Text, text_eq,
  text_eqb_iff, ◌==◌, if◌then◌else◌, Option-cases, Bool-cases,
}
use net_pixeld.Prelude.Umap.{Umap, find, assign, Distinct}
use net_pixeld.Prelude.Int.{ℤ}
use net_pixeld.Json.{Json}
use net_pixeld.Resource.{Resources}
use net_pixeld.Db.Uuid.{generate_uuid}
use net_pixeld.Db.Types.{Account, Db}
use net_pixeld.Db.Queries.{find_uuid, update_uuid, user_exists}
use net_pixeld.Db.Updates.{add_user, update_resources, set_camp_level, new_account}
use net_pixeld.Db.Lookup.{update_uuid-none, update_uuid-some}
use net_pixeld.Db.Accounts.{accounts-save, add_user-free, add_user-taken}

abbrev pub Store : Type 0
Store = Text → Option Account

-- a call of a method that changes accounts
pub data Op : Type 0 where
  adds : Text → Text → Op
  gives : Text → Resources → Op
  levels : Text → Text → ℤ → Op

-- a change of the account with a uuid
abbrev pub on_uuid : Text → (Account → Account) → Account → Account
on_uuid uuid f acc = if acc.uuid == uuid then f acc else acc

abbrev pub change : Text → (Account → Account) → Store → Store
change uuid f store user = Option.map (on_uuid uuid f) (store user)

abbrev or_new : Option Account → Account → Option Account
or_new none new = some new
or_new (some old) new = some old

-- What a call means, where `uuid` is the next one drawn: a name that is taken stays as it is, and an
-- unknown uuid changes nothing.
abbrev pub specified : Op → Text → Store → Store
specified (adds user pass) uuid store =
    λ v. if user == v then or_new (store v) (new_account pass uuid) else store v
specified (gives u r) uuid store = change u (λ acc. record acc { resources = r }) store
specified (levels u camp level) uuid store =
    change u (λ acc. record acc { camp_levels = assign camp level acc.camp_levels }) store

-- No two users have the same uuid.
abbrev pub IsUnique : Umap Text Account → Type 0
IsUnique m =
    (u v : Text) (a b : Account) → find u m ≡ some a → find v m ≡ some b → a.uuid ≡ b.uuid → u ≡ v

IsUnique-tail :
    (name : Text) (acc : Account) (rest : Umap Text Account)
    → Distinct ((name, acc) ∷ rest)
    → IsUnique ((name, acc) ∷ rest)
    → IsUnique rest
unfolding find
IsUnique-tail name acc rest d unique u v a b e f same =
    unique u v a b (ground (arith, e, d.0, text_eqb_iff name u))
      (ground (arith, f, d.0, text_eqb_iff name v)) same

-- The loop, which stops at the first account with the uuid, changes the one that there is.
find-update_uuid-on_uuid :
    (uuid : Text) (f : Account → Account) (m new : Umap Text Account) (v : Text)
    → Distinct m
    → IsUnique m
    → update_uuid uuid f m ≡ some new
    → find v new ≡ change uuid f (λ u. find u m) v
unfolding find update_uuid
find-update_uuid-on_uuid uuid f [] new v d unique e = cc
find-update_uuid-on_uuid uuid f ((name, acc) ∷ rest) new v d unique e =
    elim (Bool-cases (acc.uuid == uuid)) [
      | inl hit ↦ elim (Bool-cases (name == v)) [
        | inl same ↦ ground (arith, e, hit, same)
        | inr other ↦ elim (Option-cases (find v rest)) [
          | inl missing ↦ ground (arith, e, hit, other, missing)
          | inr (b, found) ↦ elim (Bool-cases (b.uuid == uuid)) [
            | inl twice ↦
                let equal : acc.uuid ≡ b.uuid =
                  (text_eqb_iff acc.uuid uuid).0 hit ∙ sym ((text_eqb_iff b.uuid uuid).0 twice) in
                let one : name ≡ v =
                  unique name v acc b (ground (arith, text_eqb_iff name name))
                    (ground (arith, other, found)) equal in
                ground (arith, one, other, text_eqb_iff name v)
            | inr apart ↦ ground (arith, e, hit, other, found, apart)
          ]
        ]
      ]
      | inr miss ↦ elim (Option-cases (update_uuid uuid f rest)) [
        | inl none_there ↦ ground (arith, e, miss, none_there)
        | inr (tail, changed) ↦
            let later =
              find-update_uuid-on_uuid uuid f rest tail v d.1 (IsUnique-tail name acc rest d unique)
                changed in
            ground (arith, e, miss, changed, later)
      ]
    ]

pub unknown_uuid :
    (uuid v : Text) (m : Umap Text Account) (a : Account)
    → find_uuid uuid m ≡ none
    → find v m ≡ some a
    → (a.uuid == uuid) ≡ false
unfolding find find_uuid
unknown_uuid uuid v [] a none_there found = cc
unknown_uuid uuid v ((name, acc) ∷ rest) a none_there found = elim (Bool-cases (acc.uuid == uuid)) [
  | inl hit ↦ ground (arith, hit, none_there)
  | inr miss ↦ elim (Bool-cases (name == v)) [
    | inl same ↦ ground (arith, same, found, miss)
    | inr other ↦
        unknown_uuid uuid v rest a (ground (arith, miss, none_there)) (ground (arith, other, found))
  ]
]

change-unknown :
    (uuid v : Text) (f : Account → Account) (m : Umap Text Account)
    → find_uuid uuid m ≡ none
    → find v m ≡ change uuid f (λ u. find u m) v
change-unknown uuid v f m none_there = elim (Option-cases (find v m)) [
  | inl e ↦ rw e
  | inr (a, e) ↦ ground (arith, e, unknown_uuid uuid v m a none_there e)
]

module _ (json : Json) where
  -- the call
  unfoldable pub perform : Op → Db → Db
  perform (adds user pass) db = (add_user json user pass db).1
  perform (gives uuid r) db = (update_resources json uuid r db).1
  perform (levels uuid camp level) db = (set_camp_level json uuid camp level db).1

  updated :
      (uuid v : Text) (f : Account → Account) (db after : Db)
      → Distinct db.accounts
      → IsUnique db.accounts
      → ((new : Umap Text Account)
          → update_uuid uuid f db.accounts ≡ some new
          → after.accounts ≡ new)
      → (update_uuid uuid f db.accounts ≡ none → after.accounts ≡ db.accounts)
      → find v after.accounts ≡ change uuid f (λ u. find u db.accounts) v
  updated uuid v f db after d unique changed same =
      elim (Option-cases (find_uuid uuid db.accounts)) [
        | inl e ↦
            ap (find v) (same (update_uuid-none uuid f db.accounts e))
            ∙ change-unknown uuid v f db.accounts e
        | inr (acc, e) ↦
            let (new, there) = update_uuid-some uuid f db.accounts acc e in
            ap (find v) (changed new there)
            ∙ find-update_uuid-on_uuid uuid f db.accounts new v d unique there
      ]

  -- Where users and uuids are distinct, each call of a method that changes accounts acts on the
  -- accounts as the abstract store says, whether it returns or throws.
  pub perform_refines :
      (op : Op) (db : Db) (v : Text)
      → Distinct db.accounts
      → IsUnique db.accounts
      → find v (perform op db).accounts
        ≡ specified op (generate_uuid db.generator).0 (λ u. find u db.accounts) v
  unfolding perform update_resources set_camp_level user_exists
  perform_refines (adds user pass) db v d unique = elim (Option-cases (find user db.accounts)) [
    | inl e ↦
        (add_user-free json db user pass (ground (arith, e))).1 v ∙ elim (Bool-cases (user == v)) [
          | inl same ↦ let at : user ≡ v = (text_eqb_iff user v).0 same in rw (same, ← at, e)
          | inr other ↦ rw other
        ]
    | inr (a, e) ↦
        ap (λ r. find v r.1.accounts) (add_user-taken json db user pass (ground (arith, e)))
        ∙ elim (Bool-cases (user == v)) [
          | inl same ↦ let at : user ≡ v = (text_eqb_iff user v).0 same in rw (same, ← at, e)
          | inr other ↦ rw other
        ]
  ]
  perform_refines (gives uuid r) db v d unique =
      updated uuid v _ db (update_resources json uuid r db).1 d unique
        (λ new e. rw (e, accounts-save json (record db { accounts = new }))) (λ e. rw e)
  perform_refines (levels uuid camp level) db v d unique =
      updated uuid v _ db (set_camp_level json uuid camp level db).1 d unique
        (λ new e. rw (e, accounts-save json (record db { accounts = new }))) (λ e. rw e)
