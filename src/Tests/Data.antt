-- ===== src/Tests/Data.antt =====
-- Concrete accounts, databases and servers.
use net_pixeld.Prelude.{true, some, [], ◌∷◌, Text, codes, arith}
use net_pixeld.Prelude.Int.{pos}
use net_pixeld.Disk.{Disk}
use net_pixeld.Db.Uuid.{Generator, InRange}
use net_pixeld.Db.Types.{Account, Db}
use net_pixeld.Session.{Session, new_session}
use net_pixeld.Protocol.{msg_login_request}
use net_pixeld.Server.State.{Server, login_handler}

abbrev pub empty_disk : Disk
empty_disk = record { files = []; can_open = true; can_rename = true; room = 1000000 }

abbrev pub elevens : Generator
elevens = record { draw = λ i. 11; drawn = 0 }

abbrev pub store : Text
store = codes "accounts.json"

abbrev pub u1 : Text
u1 = codes "u1"

abbrev pub alice : Account
alice = record {
  password = codes "pw";
  uuid = u1;
  resources = record { wood = 5; food = 0; iron = 7 };
  camp_levels = (codes "north", pos 3) ∷ [];
}

abbrev pub bob : Account
bob = record {
  password = codes "hi";
  uuid = codes "u2";
  resources = record { wood = 1; food = 2; iron = 3 };
  camp_levels = [];
}

abbrev pub two_accounts : Db
two_accounts = record {
  filepath = store;
  accounts = (codes "alice", alice) ∷ (codes "bob", bob) ∷ [];
  disk = empty_disk;
  generator = elevens;
}

-- alice is logged in on the only connection
abbrev pub playing : Session
playing = record (new_session 1) { uuid = u1; reading = true }

abbrev pub one_player : Server
one_player = record {
  accepting = true;
  next_client_id = 2;
  objects = playing ∷ [];
  sessions = (1, some 0) ∷ [];
  handlers = (msg_login_request, login_handler) ∷ [];
  timer_set = true;
  last_seq_by_type = [];
  db = two_accounts;
}

pub elevens-InRange : InRange elevens
elevens-InRange i = omega arith
