-- ===== src/Server/Events.antt =====
-- The completion handlers that `m_ctx.run()` calls, in an order that the environment chooses
-- (server/src/Server.cpp, server/src/Session.cpp), and the program's start (server/src/main.cpp).
use net_pixeld.Prelude.{
  ℕ, ◌+◌, ◌%◌, ◌^◌, Bool, true, false, none, some, List, [], ◌∷◌, ◌++◌, Text, codes, text_eq,
  nat_eq, length, get_elem?, not, is_empty, ◌&&◌, ◌||◌, if◌then◌else◌,
}
use net_pixeld.Prelude.Outcome
use net_pixeld.Prelude.Outcome.{Outcome, ok, throw, crash}
use net_pixeld.Prelude.Exec.{Exec, ◌>>=◌, ◌>>◌, continue, pure, modify}
use net_pixeld.Prelude.Umap.{assign}
use net_pixeld.Json.{Json}
use net_pixeld.Protocol.{Message, msg_assign_client_id, msg_login_request}
use net_pixeld.Session.{
  Session, new_session, start, do_read, run_posted, on_write, arrive, next_message,
}
use net_pixeld.Protocol.Framing.{has_line}
use net_pixeld.Disk.{Disk}
use net_pixeld.Db.Uuid.{Generator}
use net_pixeld.Db.Updates.{construct}
use net_pixeld.Server.State.{Server, Pointer, login_handler, new_server, do_accept}
use net_pixeld.Server.Sessions.{call_session, send_to, on_client_disconnect}
use net_pixeld.Server.Messages.{on_client_message, register_handler}
use net_pixeld.Server.Tick.{on_resource_tick}

-- A new session object under a client id, which it returns with the pointer.
unfoldable pub add_session : Exec Server (ℕ × Pointer)
add_session server =
    let id = server.next_client_id in
    let p : Pointer = some (length server.objects) in
    (
      ok (id, p),
      record server {
        accepting = false;
        next_client_id = (id + 1) % 2 ^ 8;
        objects = server.objects ++ new_session id ∷ [];
        sessions = assign id p server.sessions;
      },
    )

-- the completion of a write; a failure calls onClientDisconnect
abbrev pub disconnect_if : Bool → ℕ → Exec Server (Unit {0})
disconnect_if true client_id = modify (on_client_disconnect client_id)
disconnect_if false client_id = pure tt

-- `catch (std::exception &e)`: the error is logged, and the state reached stays
abbrev pub catch_all : Exec Server (Unit {0}) → Exec Server (Unit {0})
catch_all m server =
    let (result, after) = m server in
    (elim result [ ok _ ↦ ok tt | throw _ ↦ ok tt | crash ↦ crash ], after)

-- What the environment makes ready: an accept, the timer, a turn of a session's strand, a write
-- done, bytes on a socket, a read done. The flag is an error.
pub data Event : Type 0 where
  accepted fired : Bool → Event
  turned : ℕ → Event
  wrote : ℕ → Bool → Event
  arrived : ℕ → Text → Event
  completed : ℕ → Bool → Event

abbrev pub session_ready : (Session → Bool) → ℕ → Server → Bool
session_ready test ref server = elim (get_elem? server.objects ref) [
  | none ↦ false
  | some s ↦ test s
]

-- A read is done when a line is there, or by an error.
abbrev pub readable : Bool → Session → Bool
readable ec s = s.reading && (ec || has_line s.incoming)

-- Whether the event can happen.
abbrev pub ready : Event → Server → Bool
ready (accepted ec) server = server.accepting
ready (fired ec) server = server.timer_set
ready (turned ref) server = session_ready (λ s. not (is_empty s.posted)) ref server
ready (wrote ref ec) server = session_ready (λ s. not (is_empty s.writes)) ref server
ready (arrived ref bytes) server = session_ready (λ s. true) ref server
ready (completed ref ec) server = session_ready (readable ec) ref server

unfoldable pub on_written : Pointer → Bool → Exec Server (Unit {0})
on_written p ec = do
  client_id ← call_session p (λ s. (ok s.client_id, s))
  failed ← call_session p (on_write ec)
  disconnect_if failed client_id

-- the result with the state
abbrev pub reached : Outcome (Unit {0}) × Server → Outcome (Unit {0} × Server)
reached (ok a, server) = ok (a, server)
reached (throw x, server) = throw x
reached (crash, server) = crash

module _ (json : Json) where
  open json use {Value, object, string, number}

  abbrev pub handshake : ℕ → Message Value
  handshake id = record {
    type = msg_assign_client_id;
    sequence = 1;
    payload = object ((codes "clientId", number id) ∷ []);
  }

  abbrev pub greet : ℕ × Pointer → Exec Server (Unit {0})
  greet (id, p) = do
    send_to json p (handshake id)
    call_session p (λ s. (ok tt, start s))
    modify do_accept

  -- true is an error of the accept, whose log call passes a std::string to `%s`, which is undefined
  unfoldable pub on_accept : Bool → Exec Server (Unit {0})
  on_accept true server = (crash, server)
  on_accept false server = (do entry ← add_session; greet entry) server

  -- the completion handler of a session's read
  abbrev pub receive : Pointer → ℕ → Exec Server (Unit {0})
  receive p client_id = do
    catch_all
        (do message ← call_session p (next_message json); on_client_message json client_id message)
    call_session p (λ s. (ok tt, do_read s))

  unfoldable pub on_read : Pointer → Bool → Exec Server (Unit {0})
  on_read p ec = do
    client_id ← call_session p (λ s. (ok s.client_id, record s { reading = false }))
    if ec then modify (on_client_disconnect client_id) else receive p client_id

  abbrev pub handler : Event → Exec Server (Unit {0})
  handler (accepted ec) = on_accept ec
  handler (fired ec) = do
    modify (λ server. record server { timer_set = false })
    on_resource_tick json ec
  handler (turned ref) = call_session (some ref) run_posted
  handler (wrote ref ec) = on_written (some ref) ec
  handler (arrived ref bytes) = call_session (some ref) (λ s. (ok tt, arrive bytes s))
  handler (completed ref ec) = on_read (some ref) ec

  unfoldable pub step : Event → Exec Server (Unit {0})
  step event server = if ready event server then handler event server else (ok tt, server)

  -- m_ctx.run(): an exception leaves it, and the program ends.
  unfoldable pub run : List Event → Exec Server (Unit {0})
  run [] server = (ok tt, server)
  run (event ∷ rest) server = continue (step event server) λ _. run rest

  -- main, up to the loop
  unfoldable pub boot : Text → Disk → Generator → Outcome Server
  boot filepath disk generator =
      Outcome.◌>>=◌ (construct json filepath disk generator)
        λ db. ok (do_accept (register_handler msg_login_request login_handler (new_server db)))

  -- main
  unfoldable pub server_main : Text → Disk → Generator → List Event → Outcome (Unit {0} × Server)
  unfolding boot run
  server_main filepath disk generator events =
      Outcome.◌>>=◌ (boot filepath disk generator) λ server. reached (run events server)
