-- ===== src/Server/Messages.antt =====
-- onClientMessage (server/src/Server.cpp) and the login handler (server/src/main.cpp).
use net_pixeld.Prelude.{
  ℕ, Bool, not, Option, none, some, [], ◌∷◌, Text, text_eq, codes, if◌then◌else◌,
}
use net_pixeld.Prelude.Outcome
use net_pixeld.Prelude.Outcome.{Outcome, ok, json_error, or_throw}
use net_pixeld.Prelude.Exec.{Exec, ◌>>=◌, ◌>>◌, lift, reads, pure}
use net_pixeld.Prelude.Umap.{find, assign}
use net_pixeld.Json.{Json}
use net_pixeld.Protocol.{Message, msg_login_result}
use net_pixeld.Session.{set_uuid}
use net_pixeld.Db.Queries.{user_exists, verify_user, get_user}
use net_pixeld.Db.Updates.{add_user}
use net_pixeld.Server.State.{Server, Handler, login_handler, Pointer}
use net_pixeld.Server.Sessions.{call_session, call_db, get_session, send_to_client}

-- registerHandler
unfoldable pub register_handler : Text → Handler → Server → Server
register_handler type handler server = record server {
  handlers = assign type handler server.handlers;
}

-- getSession(clientId)
abbrev getting_session : ℕ → Exec Server Pointer
getting_session client_id server =
    let (p, server') = get_session client_id server in (ok p, server')

module _ (json : Json) where
  open json use {Value, object, string, at, get_string}

  abbrev pub text_at : Value → Text → Exec Server Text
  text_at p key =
      lift (Outcome.◌>>=◌ (or_throw json_error (at p key)) λ v. or_throw json_error (get_string v))

  -- a registered user: a wrong password ends the handler early
  abbrev pub known_uuid : Bool → Text → Text → Exec Server (Option Text)
  known_uuid verified user pass =
      if not verified
      then pure none
      else do uuid ← reads (λ server. get_user user pass server.db); pure (some uuid)

  abbrev pub new_uuid : Text → Text → Exec Server (Option Text)
  new_uuid user pass = do uuid ← call_db (add_user json user pass); pure (some uuid)

  -- the uuid of the login, or none where the handler returns early
  unfoldable pub login_uuid : Text → Text → Exec Server (Option Text)
  login_uuid user pass server =
      if user_exists user server.db
      then known_uuid (verify_user user pass server.db) user pass server
      else new_uuid user pass server

  abbrev pub login_reply : Text → Message Value
  login_reply uuid = record {
    type = msg_login_result;
    sequence = 1;
    payload = object ((codes "uuid", string uuid) ∷ []);
  }

  -- server.getSession(clientId)->setUUID(uuid), and the reply
  unfoldable pub log_in : ℕ → Option Text → Exec Server (Unit {0})
  log_in client_id none = pure tt
  log_in client_id (some uuid) = do
    p ← getting_session client_id
    call_session p (λ s. (ok tt, set_uuid uuid s))
    send_to_client json client_id (login_reply uuid)

  unfoldable pub handle_login : ℕ → Message Value → Exec Server (Unit {0})
  handle_login client_id msg = do
    user ← text_at msg.payload (codes "id")
    pass ← text_at msg.payload (codes "password")
    uuid ← login_uuid user pass
    log_in client_id uuid

  abbrev pub handle : Option Handler → ℕ → Message Value → Exec Server (Unit {0})
  handle none client_id msg = pure tt
  handle (some login_handler) client_id msg = handle_login client_id msg

  unfoldable pub on_client_message : ℕ → Message Value → Exec Server (Unit {0})
  on_client_message client_id msg server =
      handle (find msg.type server.handlers) client_id msg server
