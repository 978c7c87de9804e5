-- ===== src/Server/Registering.antt =====
-- The whole login handler on a server that can serve (server/src/main.cpp).
use net_pixeld.Prelude.{
  ℕ, ◌≡◌, refl, ap, ◌∙◌, inl, inr, true, false, Bool-cases, Option, none, some, arith, Text, codes,
  text_eq, nat_eq, ◌==◌, get_elem?, set, if◌then◌else◌,
}
use net_pixeld.Prelude.Outcome.{ok}
use net_pixeld.Prelude.Exec.{continue, pure}
use net_pixeld.Prelude.Umap.{find, All-find, find-assign, beq_refl}
use net_pixeld.Json.{Json, IsLawful}
use net_pixeld.Protocol.{Message, serialize}
use net_pixeld.Session.{Session, post, set_uuid}
use net_pixeld.Db.Uuid.{generate_uuid, generate_uuid-IsAscii}
use net_pixeld.Db.Types.{Account, Db}
use net_pixeld.Db.Queries.{user_exists, verify_user, get_user}
use net_pixeld.Db.Updates.{add_user, new_account}
use net_pixeld.Db.Known.{accounts-add_user}
use net_pixeld.Db.Encodable.{IsEncodable, IsUtf8Entry}
use net_pixeld.Db.Totality.{add_user_total}
use net_pixeld.Server.State.{Server}
use net_pixeld.Server.Messages.{
  text_at, known_uuid, new_uuid, login_uuid, log_in, handle_login, login_reply,
}
use net_pixeld.Server.Login.{log_in_lem, login_uuid-wrong, login_uuid-right}
use net_pixeld.Server.Listening.{text_at-IsEncodable}
use net_pixeld.Server.Returning.{CanServe, serialize_total}

module _ (json : Json) (id ref : ℕ) (o : Session) (msg : Message json.Value) (user pass : Text)
    (s : Server) where
  -- the login is answered with the uuid, and the session has it
  abbrev pub Answered : Text → Db → Type 0
  Answered uuid db =
      (reply : Text) × (serialize json (login_reply json uuid) ≡ ok reply)
      × (handle_login json id msg s ≡ (
        ok tt,
        record s { db = db; objects = set s.objects ref (post reply (set_uuid uuid o)) },
      ))

  -- What the handler does, by the account that the user has.
  abbrev pub Answer : Option Account → Type 0
  Answer none =
      let uuid = (generate_uuid s.db.generator).0 in
      Answered uuid (add_user json user pass s.db).1
      × (find user (add_user json user pass s.db).1.accounts ≡ some (new_account pass uuid))
  Answer (some acc) =
      if acc.password == pass
      then Answered acc.uuid s.db
      else (handle_login json id msg s ≡ (ok tt, s))

module _ (json : Json) (lawful : IsLawful json) where
  open json use {IsUtf8}

  login_reply-serialize :
      (uuid : Text)
      → IsEncodable json uuid
      → (reply : Text) × (serialize json (login_reply json uuid) ≡ ok reply)
  login_reply-serialize uuid u =
      let ascii = lawful.IsUtf8-string in
      serialize_total json lawful (login_reply json uuid) (
        lawful.IsUtf8-object _ (
          (ascii (codes "type") (ground arith), ascii (codes "LoginResult") (ground arith)),
          (
            (ascii (codes "sequence") (ground arith), lawful.IsUtf8-number 1),
            (
              (
                ascii (codes "payload") (ground arith),
                lawful.IsUtf8-object _ ((ascii (codes "uuid") (ground arith), u), tt),
              ),
              tt,
            ),
          ),
        ))

  module _ (id ref : ℕ) (o : Session) (msg : Message json.Value) (user pass : Text) (s : Server)
      (h : CanServe json s) (entry : find id s.sessions ≡ some (some ref))
      (there : get_elem? s.objects ref ≡ some o)
      (named : (text_at json msg.payload (codes "id") s).0 ≡ ok user)
      (given : (text_at json msg.payload (codes "password") s).0 ≡ ok pass) where
    handle_login_step :
        handle_login json id msg s ≡ continue (login_uuid json user pass s) (log_in json id)
    unfolding handle_login
    handle_login_step = rw (named, given)

    login_wrong :
        (acc : Account)
        → find user s.db.accounts ≡ some acc
        → (acc.password == pass) ≡ false
        → handle_login json id msg s ≡ (ok tt, s)
    unfolding user_exists verify_user log_in
    login_wrong acc f wrong =
        handle_login_step
        ∙ ap (λ r. continue r (log_in json id))
            (login_uuid-wrong json s user pass (ground (arith, f)) (ground (arith, f, wrong)))

    login_right :
        (acc : Account)
        → find user s.db.accounts ≡ some acc
        → (acc.password == pass) ≡ true
        → Answered json id ref o msg user pass s acc.uuid s.db
    unfolding user_exists verify_user get_user
    login_right acc f right =
        let known = All-find (IsUtf8Entry json) user acc s.db.accounts f h.can_save.storable in
        let (reply, sent) = login_reply-serialize acc.uuid known.uuid in
        let (uuid, got, same) =
          login_uuid-right json s user pass (ground (arith, f)) (ground (arith, f, right)) in
        let own : uuid ≡ acc.uuid = ground (arith, f, right, got) in
        (
          reply,
          sent,
          handle_login_step
              ∙ ap (λ r. continue r (log_in json id)) (same ∙ ap (λ u. (ok (some u), s)) own)
              ∙ log_in_lem json s id ref acc.uuid reply o entry there sent,
        )

    login_new :
        find user s.db.accounts ≡ none
        → IsUtf8 msg.payload
        → let uuid = (generate_uuid s.db.generator).0 in
          Answered json id ref o msg user pass s uuid (add_user json user pass s.db).1
          × (find user (add_user json user pass s.db).1.accounts ≡ some (new_account pass uuid))
    unfolding login_uuid user_exists
    login_new f u =
        let uuid = (generate_uuid s.db.generator).0 in
        let free : user_exists user s.db ≡ false = ground (arith, f) in
        let name = text_at-IsEncodable json lawful msg.payload (codes "id") user s u named in
        let word = text_at-IsEncodable json lawful msg.payload (codes "password") pass s u given in
        let (added, _) = add_user_total json lawful user pass s.db free name word h.can_save in
        let (reply, sent) =
          login_reply-serialize uuid
            (lawful.IsUtf8-string uuid (generate_uuid-IsAscii s.db.generator h.can_save.draws)) in
        let after = record s { db = (add_user json user pass s.db).1 } in
        let found : login_uuid json user pass s ≡ (ok (some uuid), after) =
          ap
            (λ b.
              if b
              then known_uuid json (verify_user user pass s.db) user pass s
              else new_uuid json user pass s)
            free
          ∙ ap (λ r. continue (r, after) (λ v. pure (some v))) added in
        (
          (
            reply,
            sent,
            handle_login_step
                ∙ ap (λ r. continue r (log_in json id)) found
                ∙ log_in_lem json after id ref uuid reply o entry there sent,
          ),
          ap (find user) (accounts-add_user json s.db user pass free)
              ∙ find-assign user user (new_account pass uuid) s.db.accounts
              ∙ ap (λ b. if b then some (new_account pass uuid) else find user s.db.accounts)
                  (beq_refl user),
        )

    -- With a JSON library as documented, on a server that is well-formed and can save its accounts,
    -- for a message of valid UTF-8 with a name and a password from a session that is there: a name
    -- without an account gets one with the password and the next uuid; a name with the right
    -- password has that account's uuid; in both cases the session gets the uuid and the reply with
    -- it, and nothing else changes but, for a new account, the database. A wrong password changes
    -- nothing.
    pub handle_login_lem :
        IsUtf8 msg.payload → Answer json id ref o msg user pass s (find user s.db.accounts)
    handle_login_lem u = go (find user s.db.accounts) refl
      where
        go :
            (found : Option Account)
            → find user s.db.accounts ≡ found
            → Answer json id ref o msg user pass s found
        go none f = login_new f u
        go (some acc) f = elim (Bool-cases (acc.password == pass)) [
          | inl right ↦ rw right (login_right acc f right)
          | inr wrong ↦ rw wrong (login_wrong acc f wrong)
        ]
