-- ===== src/Server/Listening.antt =====
-- The messages of clients keep the accounts savable: what was parsed is valid UTF-8 (server/src/main.cpp,
-- server/src/Server.cpp).
use net_pixeld.Prelude.{
  ℕ, ◌≡◌, inl, inr, Bool, true, false, Option, none, some, arith, Text, codes, text_eq, nat_eq,
  get_elem?, Option-cases, Bool-cases,
}
use net_pixeld.Prelude.Outcome.{ok, json_error, or_throw, or_throw-ok}
use net_pixeld.Prelude.Exec.{◌>>=◌, pure, reads}
use net_pixeld.Prelude.Umap.{find}
use net_pixeld.Json.{Json, IsLawful}
use net_pixeld.Protocol.{Message, parse}
use net_pixeld.Session.{next_message, take_line, set_uuid}
use net_pixeld.Db.Queries.{get_user, user_exists, verify_user}
use net_pixeld.Db.Updates.{add_user}
use net_pixeld.Db.Encodable.{IsEncodable}
use net_pixeld.Server.State.{Server, Handler, login_handler, Pointer}
use net_pixeld.Server.Sessions.{read_session, call_session, call_db, get_session, send_to_client}
use net_pixeld.Server.Messages.{
  text_at, login_uuid, known_uuid, log_in, handle_login, on_client_message, handle, login_reply,
}
use net_pixeld.Server.Saving.{
  KeepsSaving, KeepsSaving-bind, KeepsSaving-call_session, KeepsSaving-send_to_client,
  KeepsSaving-add_user,
}

module _ (json : Json) (lawful : IsLawful json) where
  open json use {Value, at, get_string, IsUtf8}

  -- A text of a parsed message is valid UTF-8.
  pub text_at-IsEncodable :
      (p : Value) (key t : Text) (s : Server)
      → IsUtf8 p
      → (text_at json p key s).0 ≡ ok t
      → IsEncodable json t
  text_at-IsEncodable p key t s u e = elim (Option-cases (at p key)) [
    | inl missing ↦ ground (arith, missing, e)
    | inr (v, there) ↦
        let got : or_throw json_error (get_string v) ≡ ok t = ground (arith, there, e) in
        lawful.get_string-IsUtf8 v t (lawful.at-IsUtf8 p v key u there)
          (or_throw-ok json_error _ t got)
  ]

  KeepsSaving-known_uuid :
      (b : Bool) (user pass : Text) → KeepsSaving json (known_uuid json b user pass)
  KeepsSaving-known_uuid false user pass = λ s h. h
  KeepsSaving-known_uuid true user pass =
      KeepsSaving-bind json (reads (λ s. get_user user pass s.db)) (λ uuid. pure (some uuid))
        (λ s h. h) λ _ _ _ s h. h

  KeepsSaving-login_uuid :
      (user pass : Text)
      → IsEncodable json user
      → IsEncodable json pass
      → KeepsSaving json (login_uuid json user pass)
  unfolding login_uuid
  KeepsSaving-login_uuid user pass u p s h = elim (Bool-cases (user_exists user s.db)) [
    | inl e ↦ rw e (KeepsSaving-known_uuid (verify_user user pass s.db) user pass s h)
    | inr e ↦ rw e (
        KeepsSaving-bind json (call_db (add_user json user pass)) (λ uuid. pure (some uuid))
          (KeepsSaving-add_user json lawful user pass u p) (λ _ _ _ s h. h) s h)
  ]

  KeepsSaving-log_in : (id : ℕ) (uuid : Option Text) → KeepsSaving json (log_in json id uuid)
  unfolding log_in get_session
  KeepsSaving-log_in id none = λ s h. h
  KeepsSaving-log_in id (some uuid) =
      let reply = λ (_ : Unit {0}). send_to_client json id (login_reply json uuid) in
      KeepsSaving-bind json (λ s. let (p, t) = get_session id s in (ok p, t))
        (λ p. call_session p (λ s. (ok tt, set_uuid uuid s)) >>= reply)
        (λ s h. elim (Option-cases (find id s.sessions)) [ inl e ↦ rw e h | inr (p, e) ↦ rw e h ])
        λ p _ _.
          KeepsSaving-bind json (call_session p (λ s. (ok tt, set_uuid uuid s))) reply
            (KeepsSaving-call_session json p _)
            λ _ _ _. KeepsSaving-send_to_client json id (login_reply json uuid)

  KeepsSaving-handle_login :
      (id : ℕ) (msg : Message Value)
      → IsUtf8 msg.payload
      → KeepsSaving json (handle_login json id msg)
  unfolding handle_login
  KeepsSaving-handle_login id msg u =
      let ended = λ (user pass : Text). login_uuid json user pass >>= log_in json id in
      KeepsSaving-bind json (text_at json msg.payload (codes "id"))
        (λ user. text_at json msg.payload (codes "password") >>= ended user) (λ s h. h)
        λ user s got.
          KeepsSaving-bind json (text_at json msg.payload (codes "password")) (ended user)
            (λ s h. h)
            λ pass t given.
              KeepsSaving-bind json (login_uuid json user pass) (log_in json id)
                (KeepsSaving-login_uuid user pass (text_at-IsEncodable _ _ user s u got)
                  (text_at-IsEncodable _ _ pass t u given))
                λ uuid _ _. KeepsSaving-log_in id uuid

  KeepsSaving-handle :
      (h : Option Handler) (id : ℕ) (msg : Message Value)
      → IsUtf8 msg.payload
      → KeepsSaving json (handle json h id msg)
  KeepsSaving-handle none id msg u = λ s h. h
  KeepsSaving-handle (some login_handler) id msg u = KeepsSaving-handle_login id msg u

  -- The payload of a parsed message is valid UTF-8.
  parse-payload :
      (line : Text) (msg : Message Value) → parse json line ≡ ok msg → IsUtf8 msg.payload
  unfolding parse
  parse-payload line msg e = elim (Option-cases (json.parse line)) [
    | inl bad ↦ ground (arith, bad, e)
    | inr (j, parsed) ↦
        let there : at j (codes "payload") ≡ some msg.payload = ground (arith, parsed, e) in
        lawful.at-IsUtf8 j msg.payload (codes "payload") (lawful.parse-IsUtf8 line j parsed) there
  ]

  pub KeepsSaving-on_client_message :
      (id : ℕ) (msg : Message Value)
      → IsUtf8 msg.payload
      → KeepsSaving json (on_client_message json id msg)
  unfolding on_client_message
  KeepsSaving-on_client_message id msg u =
      λ s. KeepsSaving-handle (find msg.type s.handlers) id msg u s

  -- What next_message returns was parsed.
  pub next_message-payload :
      (p : Pointer) (msg : Message Value) (s : Server)
      → (call_session p (next_message json) s).0 ≡ ok msg
      → IsUtf8 msg.payload
  unfolding call_session read_session next_message
  next_message-payload none msg s e = cc
  next_message-payload (some ref) msg s e = elim (Option-cases (get_elem? s.objects ref)) [
    | inl missing ↦ ground (arith, missing, e)
    | inr (o, there) ↦ parse-payload (take_line o).0 msg (ground (arith, there, e))
  ]
