-- ===== src/Session/Interface.antt =====
-- The methods of the class Session (server/inc/Session.hpp) and the definitions that implement them.
use net_pixeld.Prelude.{ℕ, Text}
use net_pixeld.Prelude.Exec.{Exec}
use net_pixeld.Json.{Json}
use net_pixeld.Protocol.{Message}
use net_pixeld.Session.{
  Session, new_session, close, start, send, get_id, get_uuid, set_uuid, do_read, do_write,
}

module _ (json : Json) where
  open json use {Value}

  -- The callbacks of the constructor are the server's: the caller of a handler calls them.
  pub record SessionClass : Type 0 where
    pub constructs : ℕ → Session
    pub destroys : Session → Session
    pub starts : Session → Session
    pub sends : Message Value → Exec Session (Unit {0})
    pub id_of : Session → ℕ
    pub uuid_of : Session → Text
    pub sets_uuid : Text → Session → Session
    pub reads : Session → Session
    pub writes : Exec Session (Unit {0})

  abbrev pub session_class : SessionClass
  session_class = record {
    constructs = new_session;
    destroys = close;
    starts = start;
    sends = send json;
    id_of = get_id;
    uuid_of = get_uuid;
    sets_uuid = set_uuid;
    reads = do_read;
    writes = do_write;
  }
