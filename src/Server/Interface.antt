-- ===== src/Server/Interface.antt =====
-- The methods of the class Server (server/inc/Server.hpp) and the definitions that implement them.
use net_pixeld.Prelude.{ℕ, Bool, List, Text}
use net_pixeld.Prelude.Exec.{Exec}
use net_pixeld.Json.{Json}
use net_pixeld.Protocol.{Message}
use net_pixeld.Db.Types.{Db}
use net_pixeld.Server.State.{
  Server, Handler, Pointer, new_server, do_accept, schedule_resource_tick,
}
use net_pixeld.Server.Sessions.{get_session, send_to_client, on_client_disconnect}
use net_pixeld.Server.Messages.{register_handler, on_client_message}
use net_pixeld.Server.Tick.{on_resource_tick}
use net_pixeld.Server.Events.{Event, run, on_accept}

module _ (json : Json) where
  open json use {Value}

  -- The port of the constructor is the environment's; an error code is whether there is an error; a
  -- socket is the session object's.
  pub record ServerClass : Type 0 where
    pub constructs : Db → Server
    pub runs : List Event → Exec Server (Unit {0})
    pub registers_handler : Text → Handler → Server → Server
    pub sends_to_client : ℕ → Message Value → Exec Server (Unit {0})
    pub gets_session : ℕ → Server → Pointer × Server
    pub accepts_next : Server → Server
    pub accepts_one : Bool → Exec Server (Unit {0})
    pub disconnects_client : ℕ → Server → Server
    pub handles_message : ℕ → Message Value → Exec Server (Unit {0})
    pub schedules_tick : Server → Server
    pub ticks : Bool → Exec Server (Unit {0})

  abbrev pub server_class : ServerClass
  server_class = record {
    constructs = new_server;
    runs = run json;
    registers_handler = register_handler;
    sends_to_client = send_to_client json;
    gets_session = get_session;
    accepts_next = do_accept;
    accepts_one = on_accept json;
    disconnects_client = on_client_disconnect;
    handles_message = on_client_message json;
    schedules_tick = schedule_resource_tick;
    ticks = on_resource_tick json;
  }
