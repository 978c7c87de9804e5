-- ===== src/Tests/Files.antt =====
-- The accounts file, and a run of calls on the accounts.
use net_pixeld.Prelude.{
  ◌+◌, ◌≡◌, refl, ◌≤◌, arith, false, some, [], ◌∷◌, ◌++◌, Text, codes, text_eq, ◌==◌, take, length,
  Bool-cases, subst, inl, inr, ap, sym, ◌∙◌, text_eqb_iff,
}
use net_pixeld.Prelude.Outcome.{ok, throw, filesystem_error}
use net_pixeld.Prelude.Umap.{find, Distinct}
use net_pixeld.Prelude.Int.{ℤ, pos, FitsInt}
use net_pixeld.Json.Tree.{tree_json, print}
use net_pixeld.Json.Tree.Reading.{tree_json-IsLawful}
use net_pixeld.Disk.{read_file, open_file, write_file, rename}
use net_pixeld.Db.Uuid.{generate_uuid, length-generate_uuid}
use net_pixeld.Db.Types.{Account, Db}
use net_pixeld.Db.Queries.{user_exists, verify_user, get_user, get_resources, get_camp_level}
use net_pixeld.Db.File.{save}
use net_pixeld.Db.File.Format.{database_value}
use net_pixeld.Db.Updates.{construct}
use net_pixeld.Db.Saving.{save-throw, save-written}
use net_pixeld.Db.Loading.{IsStorable, SameAccount, construct-save}
use net_pixeld.Db.Collect.{Related}
use net_pixeld.Db.Refinement.{IsUnique, adds}
use net_pixeld.Db.Replay.{IsUnused, performs, replayed, performs_refine}
use net_pixeld.Tests.Data.{empty_disk, elevens, elevens-InRange, store, u1, alice, two_accounts}
use net_pixeld.Db.Restart.{view, restart_lem}

abbrev stuck : Db
stuck = record two_accounts { disk = record empty_disk { can_rename = false } }

abbrev dumped : Text
unfolding print
dumped = print (database_value tree_json two_accounts.accounts)

dumps : tree_json.dump_indented (database_value tree_json two_accounts.accounts) ≡ some dumped
unfolding print
dumps = refl

stuck-throws : (save tree_json stuck).0 ≡ throw filesystem_error
unfolding save rename open_file write_file print
stuck-throws = refl

save-throw_example :
    read_file store (save tree_json stuck).1.disk
    ≡ read_file store (record empty_disk { can_rename = false })
save-throw_example = save-throw tree_json stuck filesystem_error stuck-throws

save-written_example :
    ((save tree_json two_accounts).0 ≡ ok tt)
    × (read_file store (save tree_json two_accounts).1.disk
        ≡ some (take 1000000 (dumped ++ 10 ∷ [])))
save-written_example = save-written tree_json two_accounts dumped dumps refl refl

levels_fit : (camp : Text) (z : ℤ) → find camp alice.camp_levels ≡ some z → FitsInt z
unfolding find
levels_fit camp z e = elim (Bool-cases (codes "north" == camp)) [
  | inl hit ↦ subst FitsInt {x = pos 3} (cc (hit, e)) (omega arith)
  | inr miss ↦ cc (miss, e)
]

alice-IsStorable : IsStorable alice
unfolding find
alice-IsStorable = record {
  wood_fits = omega arith;
  food_fits = omega arith;
  iron_fits = omega arith;
  camps = (refl, tt);
  levels_fit = levels_fit;
}

abbrev one_account : Db
one_account = record two_accounts { accounts = (codes "alice", alice) ∷ [] }

all-IsStorable :
    (user : Text) (acc : Account) → find user one_account.accounts ≡ some acc → IsStorable acc
unfolding find
all-IsStorable user acc e = elim (Bool-cases (codes "alice" == user)) [
  | inl hit ↦ subst IsStorable {x = alice} (cc (hit, e)) alice-IsStorable
  | inr miss ↦ cc (miss, e)
]

abbrev one_dumped : Text
unfolding print
one_dumped = print (database_value tree_json one_account.accounts)

one_dumps :
    tree_json.dump_indented (database_value tree_json one_account.accounts) ≡ some one_dumped
unfolding print
one_dumps = refl

one_fits : length one_dumped + 1 ≤ one_account.disk.room
unfolding print database_value
one_fits = omega arith

one-Distinct : Distinct one_account.accounts
unfolding find
one-Distinct = (refl, tt)

construct-save_example :
    ((save tree_json one_account).0 ≡ ok tt)
    × (new : Db) × (construct tree_json store (save tree_json one_account).1.disk elevens ≡ ok new)
    × ((user : Text)
        → Related SameAccount (find user one_account.accounts) (find user new.accounts))
construct-save_example =
    construct-save tree_json tree_json-IsLawful one_account elevens one_dumped one_dumps refl refl
      one_fits one-Distinct all-IsStorable

one-IsUnique : IsUnique one_account.accounts
unfolding find
one-IsUnique u v a b e f same = elim (Bool-cases (codes "alice" == u)) [
  | inl first ↦ elim (Bool-cases (codes "alice" == v)) [
    | inl second ↦
        sym ((text_eqb_iff (codes "alice") u).0 first) ∙ (text_eqb_iff (codes "alice") v).0 second
    | inr miss ↦ cc (miss, f)
  ]
  | inr miss ↦ cc (miss, e)
]

restart_lem_example :
    (new : Db) × (construct tree_json store (save tree_json one_account).1.disk elevens ≡ ok new)
    × (view one_account ≡ view new)
    × (user_exists (codes "alice") new ≡ user_exists (codes "alice") one_account)
    × (verify_user (codes "alice") (codes "pw") new
        ≡ verify_user (codes "alice") (codes "pw") one_account)
    × (get_user (codes "alice") (codes "pw") new
        ≡ get_user (codes "alice") (codes "pw") one_account)
    × (get_resources u1 new ≡ get_resources u1 one_account)
    × (get_camp_level u1 (codes "north") new ≡ get_camp_level u1 (codes "north") one_account)
restart_lem_example =
    restart_lem tree_json tree_json-IsLawful one_account elevens one_dumped (codes "alice")
      (codes "pw") u1 (codes "north") one_dumps refl refl one_fits one-Distinct one-IsUnique
      all-IsStorable

one-IsUnused : IsUnused (generate_uuid elevens).0 one_account.accounts
unfolding find
one-IsUnused v a e same = elim (Bool-cases (codes "alice" == v)) [
  | inl hit ↦
      let found : alice ≡ a = cc (hit, e) in
      let lengths : length u1 ≡ 32 =
        ap length (ap (λ acc. acc.uuid) found ∙ same)
        ∙ length-generate_uuid elevens elevens-InRange in
      absurd (omega (arith, lengths))
  | inr miss ↦ cc (miss, e)
]

performs_refine_example :
    (λ u. find u (performs tree_json (adds (codes "carol") (codes "x") ∷ []) one_account).accounts)
    ≡ replayed tree_json
        (adds (codes "carol") (codes "x") ∷ [])
        one_account
        (λ u. find u one_account.accounts)
performs_refine_example =
    performs_refine tree_json (adds (codes "carol") (codes "x") ∷ []) one_account one-Distinct
      one-IsUnique (one-IsUnused, tt)
