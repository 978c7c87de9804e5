-- ===== src/Session.antt =====
-- server/src/Session.cpp and server/inc/Session.hpp: one connection. Handlers run one at a time on
-- the session's strand; the order in which they become ready is chosen by the environment, which
-- calls the handlers below. The socket is what it has taken (`sent`) and whether a write
-- failed or it was closed (`broken`).
pub mod Writes
pub mod Reading
pub mod Delivery
pub mod Interface
use net_pixeld.Prelude.{
  ℕ, ◌≡◌, Bool, true, false, not, List, [], ◌∷◌, ◌++◌, Text, is_empty, if◌then◌else◌,
}
use net_pixeld.Prelude.Outcome.{Outcome, ok, throw, crash}
use net_pixeld.Prelude.Exec.{Exec, continue}
use net_pixeld.Json.{Json}
use net_pixeld.Protocol.{Message, serialize, parse}
use net_pixeld.Protocol.Framing.{has_line, getline, strip_cr}

pub record Session : Type 0 where
  pub client_id : ℕ
  pub uuid : Text
  -- m_outgoing, and the texts that `send` has posted to the strand and that are not yet in it
  pub outgoing : List Text
  pub posted : List Text
  -- the buffers of the asynchronous writes in progress
  pub writes : List Text
  pub sent : List Text
  pub broken : Bool
  -- m_incoming, and whether an asynchronous read is in progress
  pub incoming : Text
  pub reading : Bool

-- the constructor
abbrev pub new_session : ℕ → Session
new_session client_id = record {
  client_id = client_id;
  uuid = [];
  outgoing = [];
  posted = [];
  writes = [];
  sent = [];
  broken = false;
  incoming = [];
  reading = false;
}

-- the destructor shuts the socket down and closes it
unfoldable pub close : Session → Session
close s = record s { broken = true }

abbrev pub get_id : Session → ℕ
get_id s = s.client_id

abbrev pub get_uuid : Session → Text
get_uuid s = s.uuid

unfoldable pub set_uuid : Text → Session → Session
set_uuid uuid s = record s { uuid = uuid }

unfoldable pub do_read : Session → Session
do_read s = record s { reading = true }

unfoldable pub start : Session → Session
unfolding do_read
start s = do_read s

-- `asio::buffer(m_outgoing.front())` on an empty deque is undefined.
abbrev write_front : List Text → Exec Session (Unit {0})
write_front [] s = (crash, s)
write_front (front ∷ _) s = (ok tt, record s { writes = s.writes ++ front ∷ [] })

unfoldable pub do_write : Exec Session (Unit {0})
do_write s = write_front s.outgoing s

-- `send` after `serialize`: the lambda goes to the strand.
unfoldable pub post : Text → Session → Session
post text s = record s { posted = s.posted ++ text ∷ [] }

-- The lambda of `send` for one text.
unfoldable pub enqueue : Text → Exec Session (Unit {0})
unfolding do_write
enqueue text s =
    let busy = not (is_empty s.outgoing) in
    let pushed = record s { outgoing = s.outgoing ++ text ∷ [] } in
    if not busy then do_write pushed else (ok tt, pushed)

-- The strand runs the oldest lambda; nothing happens where there is none.
abbrev run_oldest : List Text → Exec Session (Unit {0})
run_oldest [] s = (ok tt, s)
run_oldest (text ∷ rest) s = enqueue text (record s { posted = rest })

unfoldable pub run_posted : Exec Session (Unit {0})
unfolding enqueue
run_posted s = run_oldest s.posted s

-- m_outgoing.pop_front(); if (!m_outgoing.empty()) doWrite();
abbrev next_write : List Text → Exec Session Bool
next_write [] s = (crash, s)
next_write (_ ∷ rest) s =
    let popped = record s { outgoing = rest } in
    if is_empty rest
    then (ok false, popped)
    else continue (do_write popped) (λ _. λ t. (ok false, t))

-- The completion handler of the oldest write; true is a call of m_onDisconnect.
abbrev complete_oldest : Bool → List Text → Exec Session Bool
complete_oldest ec [] s = (ok false, s)
complete_oldest true (_ ∷ more) s = (ok true, record s { writes = more; broken = true })
complete_oldest false (text ∷ more) s =
    next_write s.outgoing (record s { writes = more; sent = s.sent ++ text ∷ [] })

unfoldable pub on_write : Bool → Exec Session Bool
unfolding do_write
on_write ec s = complete_oldest ec s.writes s

-- Bytes arrive from the socket.
unfoldable pub arrive : Text → Session → Session
arrive bytes s = record s { incoming = s.incoming ++ bytes }

-- The line that the completion handler of a read takes from m_incoming.
unfoldable pub take_line : Session → Text × Session
take_line s = let (line, rest) = getline s.incoming in (strip_cr line, record s { incoming = rest })

module _ (json : Json) where
  unfoldable pub next_message : Exec Session (Message json.Value)
  unfolding take_line
  next_message s = let (line, s') = take_line s in (parse json line, s')

  -- the message is serialized first, which may throw
  unfoldable pub send : Message json.Value → Exec Session (Unit {0})
  send msg s = continue (serialize json msg, s) λ text. λ t. (ok tt, post text t)
