-- ===== src/Client/Network.antt =====
-- NetworkClient (client/src/network/NetworkClient.cpp). The receiving thread and the main thread take
-- turns at the granularity of the mutexes: an iteration of `recvLoop`, a poll, a send.
pub mod Receiving
pub mod Stream
use net_pixeld.Prelude.{
  ℕ, Bool, true, false, not, Option, none, some, List, [], ◌∷◌, ◌++◌, Text, if◌then◌else◌,
}
use net_pixeld.Prelude.Outcome.{Outcome, ok, throw, crash, system_error}
use net_pixeld.Prelude.Exec.{Exec, continue}
use net_pixeld.Json.{Json}
use net_pixeld.Protocol.{Message, serialize, parse}
use net_pixeld.Protocol.Framing.{has_line, getline, strip_cr}

-- The socket is whether it is open and what was written to it.
pub record NetworkClient (V : Type 0) : Type 0 where
  pub running : Bool
  pub incoming : Text
  pub recv_queue : List (Message V)
  pub is_open : Bool
  pub written : List Text

-- the constructor
abbrev pub new_client : {V : Type 0} → NetworkClient V
new_client = record {
  running = false;
  incoming = [];
  recv_queue = [];
  is_open = false;
  written = [];
}

module _ {V : Type 0} where
  -- `reached` is whether resolving and connecting succeeded; their exceptions are caught.
  unfoldable pub connect : Bool → NetworkClient V → Bool × NetworkClient V
  connect reached c =
      if reached then (true, record c { is_open = true; running = true }) else (false, c)

  unfoldable pub shutdown : NetworkClient V → NetworkClient V
  shutdown c = if not c.running then c else record c { running = false; is_open = false }

  -- the destructor
  unfoldable pub destroy : NetworkClient V → NetworkClient V
  unfolding shutdown
  destroy c = shutdown c

  abbrev next_of : List (Message V) → NetworkClient V → Option (Message V) × NetworkClient V
  next_of [] c = (none, c)
  next_of (msg ∷ rest) c = (some msg, record c { recv_queue = rest })

  -- none is `false`
  unfoldable pub poll_message : NetworkClient V → Option (Message V) × NetworkClient V
  poll_message c = next_of c.recv_queue c

module _ (json : Json) where
  open json use {Value}

  -- A text that does not parse is logged and dropped.
  abbrev push_parsed : Outcome (Message Value) → NetworkClient Value → NetworkClient Value
  push_parsed (ok msg) c = record c { recv_queue = c.recv_queue ++ msg ∷ [] }
  push_parsed _ c = c

  unfoldable pub take_message : NetworkClient Value → NetworkClient Value
  take_message c =
      let (line, rest) = getline c.incoming in
      push_parsed (parse json (strip_cr line)) (record c { incoming = rest })

  -- `recvLoop`: `read_until` fails, or bytes come; it returns once there is a line among them.
  unfoldable pub receive : Option Text → NetworkClient Value → NetworkClient Value
  receive none c = if c.running then record c { running = false } else c
  receive (some bytes) c =
      if not c.running
      then c
      else if has_line (c.incoming ++ bytes)
      then take_message (record c { incoming = c.incoming ++ bytes })
      else record c { incoming = c.incoming ++ bytes }

  -- `fails` is an error of the write, which throws.
  unfoldable pub send_message : Bool → Message Value → Exec (NetworkClient Value) (Unit {0})
  send_message fails msg c =
      continue (serialize json msg, c)
        λ out. λ d.
          if fails
          then (throw system_error, d)
          else (ok tt, record d { written = d.written ++ out ∷ [] })
