-- ===== src/Server/Login.antt =====
-- The login handler (server/src/main.cpp).
use net_pixeld.Prelude.{
  ℕ, ◌≡◌, inl, inr, true, false, none, some, arith, Text, text_eq, nat_eq, Option-cases, get_elem?,
  set, set-set, get_elem?-lt, get_elem?-set_self,
}
use net_pixeld.Prelude.Outcome.{ok, crash}
use net_pixeld.Prelude.Umap.{find}
use net_pixeld.Json.{Json}
use net_pixeld.Protocol.{serialize}
use net_pixeld.Session.{Session, send, post, set_uuid}
use net_pixeld.Db.Queries.{user_exists, verify_user, get_user}
use net_pixeld.Server.State.{Server}
use net_pixeld.Server.Sessions.{read_session, call_session, get_session, send_to, send_to_client}
use net_pixeld.Server.Messages.{login_uuid, log_in, login_reply}

module _ (json : Json) (server : Server) where
  -- For a registered user with a wrong password the handler returns early, and nothing has changed.
  pub login_uuid-wrong :
      (user pass : Text)
      → user_exists user server.db ≡ true
      → verify_user user pass server.db ≡ false
      → login_uuid json user pass server ≡ (ok none, server)
  unfolding login_uuid
  login_uuid-wrong user pass known wrong = ground arith

  -- A registered user with the right password gets the uuid of the account, and nothing changes.
  pub login_uuid-right :
      (user pass : Text)
      → user_exists user server.db ≡ true
      → verify_user user pass server.db ≡ true
      → (uuid : Text) × (get_user user pass server.db ≡ ok uuid)
        × (login_uuid json user pass server ≡ (ok (some uuid), server))
  unfolding login_uuid user_exists verify_user get_user
  login_uuid-right user pass known right = elim (Option-cases (find user server.db.accounts)) [
    | inl e ↦ ground (arith, e)
    | inr (acc, e) ↦ (acc.uuid, ground (arith, e), ground (arith, e))
  ]

  -- A login under a client id that is not in m_sessions dereferences a null pointer.
  pub log_in-missing :
      (id : ℕ) (uuid : Text)
      → find id server.sessions ≡ none
      → (log_in json id (some uuid) server).0 ≡ crash
  unfolding log_in get_session call_session read_session
  log_in-missing id uuid e = ground (arith, e)

  -- A login under an id whose session exists, with a reply that can be serialized, sets that
  -- session's uuid and posts the reply to it, and changes nothing else.
  pub log_in_lem :
      (id ref : ℕ) (uuid text : Text) (s : Session)
      → find id server.sessions ≡ some (some ref)
      → get_elem? server.objects ref ≡ some s
      → serialize json (login_reply json uuid) ≡ ok text
      → log_in json id (some uuid) server
        ≡ (ok tt, record server { objects = set server.objects ref (post text (set_uuid uuid s)) })
  unfolding log_in get_session call_session read_session send_to_client send_to send
  log_in_lem id ref uuid text s e f g =
      let inside = get_elem?-lt server.objects ref s f in
      let found = get_elem?-set_self server.objects ref (set_uuid uuid s) inside in
      rw (
        e,
        get_session,
        f,
        e,
        found,
        g,
        set-set server.objects ref (set_uuid uuid s) (post text (set_uuid uuid s)),
      )
