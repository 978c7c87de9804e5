-- ===== src/Server/State.antt =====
-- The members of `Server` (server/inc/Server.hpp).
use net_pixeld.Prelude.{ℕ, Bool, false, Option, List, [], Text}
use net_pixeld.Prelude.Umap.{Umap}
use net_pixeld.Session.{Session}
use net_pixeld.Db.Types.{Db}

-- The handlers that the program registers: the one of server/src/main.cpp.
pub data Handler : Type 0 where
  login_handler : Handler

-- A `shared_ptr<Session>` is the position of its object, or null. An object lives on while handlers
-- of its socket are pending, also when no client id leads to it any more.
abbrev pub Pointer : Type 0
Pointer = Option ℕ

pub record Server : Type 0 where
  pub accepting : Bool
  pub next_client_id : ℕ
  pub objects : List Session
  pub sessions : Umap ℕ Pointer
  pub handlers : Umap Text Handler
  pub timer_set : Bool
  pub last_seq_by_type : Umap ℕ (Umap Text ℕ)
  pub db : Db

-- m_resourceTimer.expires_after(…); async_wait(…)
unfoldable pub schedule_resource_tick : Server → Server
schedule_resource_tick server = record server { timer_set = Bool.true }

-- The constructor sets the timer.
unfoldable pub new_server : Db → Server
unfolding schedule_resource_tick
new_server db = schedule_resource_tick (record {
  accepting = false;
  next_client_id = 1;
  objects = [];
  sessions = [];
  handlers = [];
  timer_set = false;
  last_seq_by_type = [];
  db = db;
})

unfoldable pub do_accept : Server → Server
do_accept server = record server { accepting = Bool.true }
