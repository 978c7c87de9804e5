-- ===== src/Server/Sessions.antt =====
-- Session objects behind their pointers, and m_sessions (server/src/Server.cpp).
use net_pixeld.Prelude.{ℕ, Option, none, some, nat_eq, get_elem?, set, text_eq}
use net_pixeld.Prelude.Outcome.{Outcome, ok, crash}
use net_pixeld.Prelude.Exec.{Exec, continue, pure}
use net_pixeld.Prelude.Umap.{find, assign, erase}
use net_pixeld.Json.{Json}
use net_pixeld.Protocol.{Message}
use net_pixeld.Session.{Session, send}
use net_pixeld.Db.Types.{Db}
use net_pixeld.Server.State.{Server, Pointer}

abbrev object_at : Option Session → Outcome Session
object_at none = crash
object_at (some s) = ok s

abbrev deref : Pointer → Server → Outcome Session
deref none server = crash
deref (some ref) server = object_at (get_elem? server.objects ref)

-- `session->`: a null pointer is undefined behaviour
unfoldable pub read_session : Pointer → Server → Outcome Session
read_session = deref

abbrev write_at : Pointer → Session → Server → Server
write_at none s server = server
write_at (some ref) s server = record server { objects = set server.objects ref s }

-- A method of the session that the pointer leads to.
unfoldable pub call_session : {A : Type 0} → Pointer → Exec Session A → Exec Server A
unfolding read_session
call_session p method server =
    continue (read_session p server, server)
      λ s. λ srv. let (result, s') = method s in (result, write_at p s' srv)

-- A method of m_db.
abbrev pub call_db : {A : Type 0} → Exec Db A → Exec Server A
call_db method server = let (result, db) = method server.db in (result, record server { db = db })

-- m_sessions[clientId]: a missing entry becomes a null pointer.
abbrev indexed : Option Pointer → ℕ → Server → Pointer × Server
indexed (some p) client_id server = (p, server)
indexed none client_id server =
    (none, record server { sessions = assign client_id none server.sessions })

unfoldable pub get_session : ℕ → Server → Pointer × Server
get_session client_id server = indexed (find client_id server.sessions) client_id server

unfoldable pub on_client_disconnect : ℕ → Server → Server
on_client_disconnect client_id server = record server { sessions = erase client_id server.sessions }

module _ (json : Json) where
  unfoldable pub send_to : Pointer → Message json.Value → Exec Server (Unit {0})
  send_to p msg = call_session p (send json msg)

  abbrev to_found : Option Pointer → Message json.Value → Exec Server (Unit {0})
  to_found none msg = pure tt
  to_found (some p) msg = send_to p msg

  unfoldable pub send_to_client : ℕ → Message json.Value → Exec Server (Unit {0})
  send_to_client client_id msg server = to_found (find client_id server.sessions) msg server
