-- ===== src/Server/Tick.antt =====
-- onResourceTick (server/src/Server.cpp): every logged-in session gets 10 of each resource and a
-- ResourceUpdate.
use net_pixeld.Prelude.{
  ℕ, ◌+◌, ◌%◌, ◌^◌, Bool, true, false, Option, none, some, List, [], ◌∷◌, Text, codes, text_eq,
  nat_eq, is_empty, if◌then◌else◌,
}
use net_pixeld.Prelude.Outcome.{ok}
use net_pixeld.Prelude.Exec.{Exec, ◌>>=◌, ◌>>◌, continue, reads, pure}
use net_pixeld.Prelude.Umap.{Umap, find, assign}
use net_pixeld.Json.{Json}
use net_pixeld.Resource.{Resources}
use net_pixeld.Protocol.{Message, msg_resource_update}
use net_pixeld.Db.Queries.{get_resources}
use net_pixeld.Db.Updates.{update_resources}
use net_pixeld.Server.State.{Server, Pointer, schedule_resource_tick}
use net_pixeld.Server.Sessions.{read_session, call_db, send_to}

-- The counters are `uint64_t`.
unfoldable pub add_ten : Resources → Resources
add_ten r = record {
  wood = (r.wood + 10) % 2 ^ 64;
  food = (r.food + 10) % 2 ^ 64;
  iron = (r.iron + 10) % 2 ^ 64;
}

abbrev pub or_zero : Option ℕ → ℕ
or_zero none = 0
or_zero (some n) = n

abbrev pub or_none : Option (Umap Text ℕ) → Umap Text ℕ
or_none none = []
or_none (some m) = m

-- the sequence number last used for a client id and a type
abbrev pub last_seq : ℕ → Text → Server → ℕ
last_seq client_id type server =
    or_zero (find type (or_none (find client_id server.last_seq_by_type)))

-- ++m_lastSeqByType[clientId][type], a `uint32_t`
unfoldable pub next_sequence : ℕ → Text → Exec Server ℕ
next_sequence client_id type server =
    let seq = (last_seq client_id type server + 1) % 2 ^ 32 in
    let of_client = or_none (find client_id server.last_seq_by_type) in
    (
      ok seq,
      record server {
        last_seq_by_type = assign client_id (assign type seq of_client) server.last_seq_by_type;
      },
    )

module _ (json : Json) where
  open json use {Value, object, string, number}

  abbrev pub resource_message : ℕ → Text → Resources → Message Value
  resource_message seq uuid pool = record {
    type = msg_resource_update;
    sequence = seq;
    payload = object (
        (codes "uuid", string uuid)
        ∷ (codes "wood", number pool.wood)
        ∷ (codes "food", number pool.food)
        ∷ (codes "iron", number pool.iron)
        ∷ []);
  }

  -- the body of the loop, for a session that is logged in and its new resources
  unfoldable pub hand_out : ℕ → Pointer → Text → Resources → Exec Server (Unit {0})
  hand_out client_id p uuid pool = do
    seq ← next_sequence client_id (codes "ResourceUpdate")
    call_db (update_resources json uuid pool)
    send_to json p (resource_message seq uuid pool)

  unfoldable pub give : ℕ → Pointer → Text → Exec Server (Unit {0})
  give client_id p uuid = do
    before ← reads (λ server. get_resources uuid server.db)
    hand_out client_id p uuid (add_ten before)

  unfoldable pub tick_session : ℕ × Pointer → Exec Server (Unit {0})
  tick_session (client_id, p) = do
    session ← reads (read_session p)
    if is_empty session.uuid then pure tt else give client_id p session.uuid

  unfoldable pub tick_sessions : List (ℕ × Pointer) → Exec Server (Unit {0})
  tick_sessions [] = pure tt
  tick_sessions (entry ∷ rest) = do tick_session entry; tick_sessions rest

  -- The timer has fired: it is no longer set.
  unfoldable pub on_resource_tick : Bool → Exec Server (Unit {0})
  on_resource_tick true server = (ok tt, server)
  on_resource_tick false server =
      continue (tick_sessions server.sessions server)
        λ _. λ after. (ok tt, schedule_resource_tick after)
