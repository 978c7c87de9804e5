-- ===== src/Server/Stepping.antt =====
-- Every event, and so every run, keeps the server well-formed, unless it crashes
-- (server/src/Server.cpp, server/src/Session.cpp).
use net_pixeld.Prelude.{
  ◌≡◌, ◌≢◌, refl, subst, inl, inr, List, [], ◌∷◌, arith, Text, text_eq, nat_eq, Bool-cases,
}
use net_pixeld.Prelude.Outcome.{Outcome, ok, throw, crash}
use net_pixeld.Prelude.Triple.{After, After-continue}
use net_pixeld.Prelude.Umap.{find}
use net_pixeld.Json.{Json}
use net_pixeld.Protocol.{msg_login_request}
use net_pixeld.Db.Types.{Db}
use net_pixeld.Disk.{Disk}
use net_pixeld.Db.Uuid.{Generator}
use net_pixeld.Db.Updates.{construct}
use net_pixeld.Server.State.{Server, login_handler, schedule_resource_tick, do_accept, new_server}
use net_pixeld.Server.Messages.{register_handler}
use net_pixeld.Server.Invariant.{IsWellFormed}
use net_pixeld.Server.Events.{Event, ready, step, run, boot}
use net_pixeld.Server.Handling.{Keeps-handler}

new-IsWellFormed :
    (db : Db)
    → IsWellFormed (do_accept (register_handler msg_login_request login_handler (new_server db)))
unfolding new_server register_handler do_accept schedule_resource_tick find
new-IsWellFormed db = record {
  pointers = λ id p f. cc;
  known = λ ref s f. cc;
  orderly = λ ref s f. cc;
  distinct = tt;
  next_fits = omega arith;
}

module _ (json : Json) where
  pub step-After :
      (event : Event) (server : Server)
      → IsWellFormed server
      → After IsWellFormed (λ _. IsWellFormed) (step json event server)
  unfolding step
  step-After event server w = elim (Bool-cases (ready event server)) [
    | inl e ↦ rw e ((Keeps-handler json event).at server w)
    | inr e ↦ rw e w
  ]

  run-After :
      (events : List Event) (server : Server)
      → IsWellFormed server
      → After IsWellFormed (λ _. IsWellFormed) (run json events server)
  unfolding run
  run-After [] server w = w
  run-After (event ∷ rest) server w =
      After-continue IsWellFormed (λ _. IsWellFormed) (λ _. IsWellFormed) (step json event server)
        (λ _. run json rest) (step-After event server w) (λ _. record { at = run-After rest })

  After-IsWellFormed :
      (r : Outcome (Unit {0}) × Server)
      → After IsWellFormed (λ _. IsWellFormed) r
      → r.0 ≢ crash
      → IsWellFormed r.1
  After-IsWellFormed (ok _, s) h n = h
  After-IsWellFormed (throw x, s) h n = h
  After-IsWellFormed (crash, s) h n = absurd (n refl)

  -- From a well-formed server, after any list of events during which the program has not crashed,
  -- every entry of m_sessions points to a session of that id, every uuid of a session is empty or an
  -- account's, and the next client id fits a byte.
  pub run-IsWellFormed :
      (events : List Event) (server : Server)
      → IsWellFormed server
      → (run json events server).0 ≢ crash
      → IsWellFormed (run json events server).1
  run-IsWellFormed events server w n =
      After-IsWellFormed (run json events server) (run-After events server w) n

  -- Where main can construct the JsonDB, the server that it starts is well-formed.
  pub boot-IsWellFormed :
      (filepath : Text) (disk : Disk) (generator : Generator) (server : Server)
      → boot json filepath disk generator ≡ ok server
      → IsWellFormed server
  unfolding boot
  boot-IsWellFormed filepath disk generator server e =
      go (construct json filepath disk generator) refl
    where
      go : (r : Outcome Db) → construct json filepath disk generator ≡ r → IsWellFormed server
      go (ok db) f =
          let start : Server =
            do_accept (register_handler msg_login_request login_handler (new_server db)) in
          let same : start ≡ server = ground (arith, f, e) in
          subst IsWellFormed same (new-IsWellFormed db)
      go (throw x) f = ground (arith, f, e)
      go crash f = ground (arith, f, e)
