-- ===== src/Server/Ticking.antt =====
-- A tick keeps the server well-formed (server/src/Server.cpp).
use net_pixeld.Prelude.{
  ℕ, Bool, true, false, List, [], ◌∷◌, Text, codes, text_eq, nat_eq, if◌then◌else◌, is_empty,
}
use net_pixeld.Prelude.Exec.{◌>>=◌, pure, reads}
use net_pixeld.Prelude.Triple.{After-continue}
use net_pixeld.Json.{Json}
use net_pixeld.Db.Updates.{update_resources}
use net_pixeld.Server.State.{Pointer, schedule_resource_tick}
use net_pixeld.Server.Sessions.{read_session, call_db, send_to}
use net_pixeld.Resource.{Resources}
use net_pixeld.Db.Queries.{get_resources}
use net_pixeld.Server.Tick.{
  resource_message, add_ten, next_sequence, hand_out, give, tick_session, tick_sessions,
  on_resource_tick,
}
use net_pixeld.Server.Invariant.{IsWellFormed}
use net_pixeld.Server.Running.{
  Keeps, Keeps-bind, Keeps-reads, Keeps-next_sequence, Keeps-update_resources, Keeps-send_to,
}

module _ (json : Json) where
  pub Keeps-hand_out :
      (id : ℕ) (p : Pointer) (uuid : Text) (pool : Resources) → Keeps (hand_out json id p uuid pool)
  unfolding hand_out
  Keeps-hand_out id p uuid pool =
      let last = λ (seq : ℕ) (_ : Unit {0}). send_to json p (resource_message json seq uuid pool) in
      let update = λ (seq : ℕ). call_db (update_resources json uuid pool) >>= last seq in
      Keeps-bind (next_sequence id (codes "ResourceUpdate")) update (Keeps-next_sequence id _)
        λ seq.
          Keeps-bind (call_db (update_resources json uuid pool)) (last seq)
            (Keeps-update_resources json uuid pool) λ _. Keeps-send_to json p _

  Keeps-give : (id : ℕ) (p : Pointer) (uuid : Text) → Keeps (give json id p uuid)
  unfolding give
  Keeps-give id p uuid =
      Keeps-bind (reads (λ server. get_resources uuid server.db))
        (λ before. hand_out json id p uuid (add_ten before)) (Keeps-reads _)
        λ before. Keeps-hand_out id p uuid (add_ten before)

  give_if :
      (b : Bool) (id : ℕ) (p : Pointer) (uuid : Text)
      → Keeps (if b then pure tt else give json id p uuid)
  give_if true id p uuid = record { at = λ s w. w }
  give_if false id p uuid = Keeps-give id p uuid

  Keeps-tick_session : (entry : ℕ × Pointer) → Keeps (tick_session json entry)
  unfolding tick_session
  Keeps-tick_session (id, p) =
      Keeps-bind (reads (read_session p))
        (λ s. if is_empty s.uuid then pure tt else give json id p s.uuid) (Keeps-reads _)
        λ s. give_if (is_empty s.uuid) id p s.uuid

  Keeps-tick_sessions : (entries : List (ℕ × Pointer)) → Keeps (tick_sessions json entries)
  unfolding tick_sessions
  Keeps-tick_sessions [] = record { at = λ s w. w }
  Keeps-tick_sessions (entry ∷ rest) =
      Keeps-bind (tick_session json entry) (λ _. tick_sessions json rest) (Keeps-tick_session entry)
        λ _. Keeps-tick_sessions rest

  pub Keeps-on_resource_tick : (ec : Bool) → Keeps (on_resource_tick json ec)
  unfolding on_resource_tick schedule_resource_tick
  Keeps-on_resource_tick true = record { at = λ s w. w }
  Keeps-on_resource_tick false = record {
    at = λ server w.
        After-continue IsWellFormed (λ _. IsWellFormed) (λ _. IsWellFormed) _ _
          ((Keeps-tick_sessions server.sessions).at server w)
          (λ _. record {
            at = λ s v. record {
              pointers = v.pointers;
              known = v.known;
              orderly = v.orderly;
              distinct = v.distinct;
              next_fits = v.next_fits;
            };
          });
  }
