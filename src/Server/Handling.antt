-- ===== src/Server/Handling.antt =====
-- The completion handlers keep the server well-formed (server/src/Server.cpp, server/src/Session.cpp).
use net_pixeld.Prelude.{
  ℕ, ◌≡◌, refl, sym, subst, ◌∙◌, inl, inr, Bool, true, false, some, [], ◌∷◌, ◌++◌, arith, text_eq,
  nat_eq, eqb, eqb_iff, if◌then◌else◌, Bool-cases, get_elem?, length, get_elem?-append_lt,
  get_elem?-append_length, get_elem?-append_one, get_elem?-lt,
}
use net_pixeld.Prelude.Outcome.{Outcome, ok, throw, crash}
use net_pixeld.Prelude.Exec.{Exec, ◌>>=◌, modify}
use net_pixeld.Prelude.Triple.{After}
use net_pixeld.Prelude.Umap.{find, assign, find-assign, assign-Distinct}
use net_pixeld.Json.{Json}
use net_pixeld.Session.{
  Session, start, do_read, run_posted, on_write, next_message, take_line, arrive, new_session,
}
use net_pixeld.Session.Writes.{
  IsOrderly, IsOrderly-same, new-IsOrderly, on_write-IsOrderly, run_posted-IsOrderly,
}
use net_pixeld.Server.State.{Server, Pointer, do_accept}
use net_pixeld.Server.Sessions.{call_session, send_to, on_client_disconnect}
use net_pixeld.Server.Messages.{on_client_message}
use net_pixeld.Server.Tick.{on_resource_tick}
use net_pixeld.Server.Invariant.{IsWellFormed, IsKnown, Leads, erase-IsWellFormed}
use net_pixeld.Server.Running.{
  Keeps, Keeps-bind, Keeps-call_session, Keeps-send_to, Keeps-on_client_message,
}
use net_pixeld.Server.Events.{
  Event, accepted, fired, turned, wrote, arrived, completed, add_session, greet, catch_all,
  disconnect_if, on_accept, receive, on_read, on_written, handler, handshake,
}
use net_pixeld.Server.Ticking.{Keeps-on_resource_tick}

added_pointer :
    (server : Server) (id j : ℕ) (q : Pointer)
    → IsWellFormed server
    → find j (assign id (some (length server.objects)) server.sessions) ≡ some q
    → Leads (server.objects ++ new_session id ∷ []) j q
added_pointer server id j q w f = elim (Bool-cases (eqb id j)) [
  | inl hit ↦
      let new : some (length server.objects) ≡ q =
        ground (arith, find-assign id j (some (length server.objects)) server.sessions) in
      record {
        ref = length server.objects;
        session = new_session id;
        points = sym new;
        there = get_elem?-append_length server.objects (new_session id);
        same_id = (eqb_iff id j).0 hit;
      }
  | inr miss ↦
      let l =
        w.pointers j q
          (ground (arith, find-assign id j (some (length server.objects)) server.sessions)) in
      record {
        ref = l.ref;
        session = l.session;
        points = l.points;
        there =
            get_elem?-append_lt server.objects _ l.ref
              (get_elem?-lt server.objects l.ref l.session l.there)
            ∙ l.there;
        same_id = l.same_id;
      }
]

added_every :
    (P : Session → Type 0) (server : Server) (id r : ℕ) (s : Session)
    → ((i : ℕ) (o : Session) → get_elem? server.objects i ≡ some o → P o)
    → P (new_session id)
    → get_elem? (server.objects ++ new_session id ∷ []) r ≡ some s
    → P s
added_every P server id r s all new f =
    elim (get_elem?-append_one server.objects r (new_session id) s f) [
      | inl old ↦ all r s old
      | inr same ↦ subst P (sym same) new
    ]

module _ (json : Json) where
  Keeps-modify :
      (f : Server → Server)
      → ((s : Server) → IsWellFormed s → IsWellFormed (f s))
      → Keeps (modify f)
  Keeps-modify f h = record { at = h }

  Keeps-disconnect : (id : ℕ) → Keeps (modify (on_client_disconnect id))
  unfolding on_client_disconnect
  Keeps-disconnect id = Keeps-modify _ (erase-IsWellFormed id)

  Keeps-add_session : Keeps add_session
  unfolding add_session
  Keeps-add_session = record {
    at = λ server w.
        let id = server.next_client_id in
        let p : Pointer = some (length server.objects) in
        record {
          pointers = λ j q f. added_pointer server id j q w f;
          known = λ r s f.
              added_every (λ s. IsKnown server.db.accounts s.uuid) server id r s w.known (inl refl)
                f;
          orderly = λ r s f. added_every IsOrderly server id r s w.orderly (new-IsOrderly id) f;
          distinct = assign-Distinct id p server.sessions w.distinct;
          next_fits = omega arith;
        };
  }

  Keeps-greet : (entry : ℕ × Pointer) → Keeps (greet json entry)
  unfolding start do_accept
  Keeps-greet (id, p) =
      let begin : Exec Server (Unit {0}) = call_session p (λ s. (ok tt, start s)) in
      Keeps-bind (send_to json p (handshake json id)) (λ _. begin >>= λ _. modify do_accept)
        (Keeps-send_to json p _)
        λ _.
          Keeps-bind begin (λ _. modify do_accept)
            (Keeps-call_session p _ (λ s. (refl, refl, IsOrderly-same s _ refl refl refl)))
            λ _. Keeps-modify do_accept (λ s w. record {
              pointers = w.pointers;
              known = w.known;
              orderly = w.orderly;
              distinct = w.distinct;
              next_fits = w.next_fits;
            })

  Keeps-on_accept : (ec : Bool) → Keeps (on_accept json ec)
  unfolding on_accept do_accept
  Keeps-on_accept true = record { at = λ s w. tt }
  Keeps-on_accept false = Keeps-bind add_session (greet json) Keeps-add_session Keeps-greet

  Keeps-catch_all : (m : Exec Server (Unit {0})) → Keeps m → Keeps (catch_all m)
  Keeps-catch_all m k = record { at = λ s w. caught (m s) (k.at s w) }
    where
      caught :
          (r : Outcome (Unit {0}) × Server)
          → After IsWellFormed (λ _. IsWellFormed) r
          → After IsWellFormed {A = Unit {0}} (λ _. IsWellFormed) (catch_all (λ _. r) r.1)
      caught (ok _, s) h = h
      caught (throw x, s) h = h
      caught (crash, s) h = tt

  Keeps-receive : (p : Pointer) (id : ℕ) → Keeps (receive json p id)
  unfolding do_read next_message take_line
  Keeps-receive p id =
      let reading = call_session p (next_message json) >>= on_client_message json id in
      Keeps-bind (catch_all reading) (λ _. call_session p (λ s. (ok tt, do_read s)))
        (Keeps-catch_all reading (
          Keeps-bind (call_session p (next_message json)) (on_client_message json id)
            (Keeps-call_session p (next_message json)
              (λ s. (refl, refl, IsOrderly-same s _ refl refl refl)))
            (Keeps-on_client_message json id)))
        λ _. Keeps-call_session p _ (λ s. (refl, refl, IsOrderly-same s _ refl refl refl))

  Keeps-read_if :
      (ec : Bool) (p : Pointer) (id : ℕ)
      → Keeps (if ec then modify (on_client_disconnect id) else receive json p id)
  Keeps-read_if true p id = Keeps-disconnect id
  Keeps-read_if false p id = Keeps-receive p id

  Keeps-on_read : (p : Pointer) (ec : Bool) → Keeps (on_read json p ec)
  unfolding on_read
  Keeps-on_read p ec =
      Keeps-bind (call_session p (λ s. (ok s.client_id, record s { reading = false })))
        (λ id. if ec then modify (on_client_disconnect id) else receive json p id)
        (Keeps-call_session p _ (λ s. (refl, refl, IsOrderly-same s _ refl refl refl)))
        (Keeps-read_if ec p)

  Keeps-disconnect_if : (b : Bool) (id : ℕ) → Keeps (disconnect_if b id)
  Keeps-disconnect_if true id = Keeps-disconnect id
  Keeps-disconnect_if false id = record { at = λ s w. w }

  Keeps-on_written : (p : Pointer) (ec : Bool) → Keeps (on_written p ec)
  unfolding on_written on_write
  Keeps-on_written p ec =
      let written =
        λ (id : ℕ). call_session p (on_write ec) >>= λ failed. disconnect_if failed id in
      Keeps-bind (call_session p (λ s. (ok s.client_id, s))) written
        (Keeps-call_session p _ (λ s. (refl, refl, IsOrderly-same s _ refl refl refl)))
        λ id.
          Keeps-bind (call_session p (on_write ec)) (λ failed. disconnect_if failed id)
            (Keeps-call_session p (on_write ec)
              (λ s. (ground arith, ground arith, on_write-IsOrderly ec s)))
            λ failed. Keeps-disconnect_if failed id

  pub Keeps-handler : (event : Event) → Keeps (handler json event)
  unfolding run_posted arrive
  Keeps-handler (accepted ec) = Keeps-on_accept ec
  Keeps-handler (fired ec) =
      Keeps-bind (modify (λ server. record server { timer_set = false }))
        (λ _. on_resource_tick json ec)
        (Keeps-modify _ (λ s w. record {
          pointers = w.pointers;
          known = w.known;
          orderly = w.orderly;
          distinct = w.distinct;
          next_fits = w.next_fits;
        }))
        λ _. Keeps-on_resource_tick json ec
  Keeps-handler (turned ref) =
      Keeps-call_session (some ref) run_posted
        (λ s. (ground arith, ground arith, run_posted-IsOrderly s))
  Keeps-handler (wrote ref ec) = Keeps-on_written (some ref) ec
  Keeps-handler (arrived ref bytes) =
      Keeps-call_session (some ref) _ (λ s. (refl, refl, IsOrderly-same s _ refl refl refl))
  Keeps-handler (completed ref ec) = Keeps-on_read (some ref) ec
