-- ===== src/Server/Steady.antt =====
-- No exception leaves the event loop of a server that can serve (server/src/Server.cpp,
-- server/src/Session.cpp, server/src/main.cpp).
use net_pixeld.Prelude.{
  ℕ, ◌≡◌, ◌≢◌, refl, inl, inr, Bool, true, false, none, some, List, [], ◌∷◌, arith, Text, codes,
  text_eq, nat_eq, if◌then◌else◌, get_elem?, Option-cases, Bool-cases,
}
use net_pixeld.Prelude.Outcome.{Outcome, Exception, ok, throw, crash}
use net_pixeld.Prelude.Exec.{Exec, continue, ◌>>=◌, modify}
use net_pixeld.Json.{Json, IsLawful}
use net_pixeld.Protocol.{Message, members}
use net_pixeld.Session.{
  Session, next_message, do_read, do_write, enqueue, send, run_posted, on_write,
}
use net_pixeld.Disk.{Disk}
use net_pixeld.Db.Uuid.{Generator, InRange}
use net_pixeld.Server.State.{Server, Pointer}
use net_pixeld.Server.Sessions.{read_session, call_session, send_to, on_client_disconnect}
use net_pixeld.Server.Messages.{on_client_message}
use net_pixeld.Server.Tick.{on_resource_tick}
use net_pixeld.Server.Events.{
  Event, accepted, fired, turned, wrote, arrived, completed, ready, handler, step, run, boot,
  server_main, reached, catch_all, receive, on_read, on_accept, add_session, greet, handshake,
  on_written, disconnect_if,
}
use net_pixeld.Server.Stepping.{step-After}
use net_pixeld.Server.Invariant.{IsWellFormed}
use net_pixeld.Server.Returning.{After-ok, CanServe, serialize_total}
use net_pixeld.Server.Clock.{tick_total, set_CanServe}
use net_pixeld.Server.Service.{KeepsSaving-step, boot-CanServe}

abbrev pub NoThrow : {S A : Type 0} → Outcome A × S → Type 0
NoThrow r = (x : Exception) → r.0 ≢ throw x

returned-NoThrow : {S A : Type 0} (r : Outcome A × S) (a : A) → r.0 ≡ ok a → NoThrow r
returned-NoThrow r a e x f = cc

continue-NoThrow :
    {S A B : Type 0} (r : Outcome A × S) (f : A → Exec S B)
    → NoThrow r
    → ((a : A) (s : S) → NoThrow (f a s))
    → NoThrow (continue r f)
continue-NoThrow (ok a, s) f n k = k a s
continue-NoThrow (throw y, s) f n k = λ x e. n y refl
continue-NoThrow (crash, s) f n k = λ x e. cc

call_session-NoThrow :
    {A : Type 0} (p : Pointer) (method : Exec Session A) (s : Server)
    → ((o : Session) → NoThrow (method o))
    → NoThrow (call_session p method s)
unfolding call_session read_session
call_session-NoThrow none method s n x e = cc
call_session-NoThrow (some ref) method s n x e = elim (Option-cases (get_elem? s.objects ref)) [
  | inl missing ↦ ground (arith, missing, e)
  | inr (o, there) ↦ n o x (ground (arith, there, e))
]

catch_all-NoThrow : (m : Exec Server (Unit {0})) (s : Server) → NoThrow (catch_all m s)
catch_all-NoThrow m s x e = go (m s) e
  where
    go : (r : Outcome (Unit {0}) × Server) → (catch_all (λ _. r) s).0 ≢ throw x
    go (ok _, t) f = cc
    go (throw y, t) f = cc
    go (crash, t) f = cc

run_posted-NoThrow : (o : Session) → NoThrow (run_posted o)
unfolding run_posted enqueue do_write
run_posted-NoThrow o x e = ground (arith, e)

on_write-NoThrow : (ec : Bool) (o : Session) → NoThrow (on_write ec o)
unfolding on_write do_write
on_write-NoThrow ec o x e = ground (arith, e)

disconnect_if-NoThrow : (b : Bool) (id : ℕ) (s : Server) → NoThrow (disconnect_if b id s)
disconnect_if-NoThrow true id s x e = cc
disconnect_if-NoThrow false id s x e = cc

on_written-NoThrow : (p : Pointer) (ec : Bool) (s : Server) → NoThrow (on_written p ec s)
unfolding on_written
on_written-NoThrow p ec s = continue-NoThrow _ _ (call_session-NoThrow p _ s (λ o x e. cc)) λ id t.
    continue-NoThrow _ _ (call_session-NoThrow p (on_write ec) t (on_write-NoThrow ec))
      λ failed u. disconnect_if-NoThrow failed id u

module _ (json : Json) where
  receive-NoThrow : (p : Pointer) (id : ℕ) (s : Server) → NoThrow (receive json p id s)
  receive-NoThrow p id s =
      let reading = call_session p (next_message json) >>= on_client_message json id in
      continue-NoThrow _ _ (catch_all-NoThrow reading s)
        λ _ u. call_session-NoThrow p (λ o. (ok tt, do_read o)) u (λ o x e. cc)

  on_read-NoThrow : (p : Pointer) (ec : Bool) (s : Server) → NoThrow (on_read json p ec s)
  unfolding on_read
  on_read-NoThrow p ec s =
      continue-NoThrow _ _ (call_session-NoThrow p _ s (λ o x e. cc)) (λ id. go ec id)
    where
      go :
          (b : Bool) (id : ℕ) (t : Server)
          → NoThrow ((if b then modify (on_client_disconnect id) else receive json p id) t)
      go true id t = λ x e. cc
      go false id t = receive-NoThrow p id t

  module _ (lawful : IsLawful json) where
    pub handshake-IsUtf8 : (id : ℕ) → json.IsUtf8 (json.object (members json (handshake json id)))
    handshake-IsUtf8 id =
        let ascii = lawful.IsUtf8-string in
        lawful.IsUtf8-object _ (
          (ascii (codes "type") (ground arith), ascii (codes "AssignClientId") (ground arith)),
          (
            (ascii (codes "sequence") (ground arith), lawful.IsUtf8-number 1),
            (
              (
                ascii (codes "payload") (ground arith),
                lawful.IsUtf8-object _
                    ((ascii (codes "clientId") (ground arith), lawful.IsUtf8-number id), tt),
              ),
              tt,
            ),
          ),
        )

    send-NoThrow :
        (msg : Message json.Value) (o : Session)
        → json.IsUtf8 (json.object (members json msg))
        → NoThrow (send json msg o)
    unfolding send
    send-NoThrow msg o u x e =
        let (wire, sent) = serialize_total json lawful msg u in ground (arith, sent, e)

    greet-NoThrow : (entry : ℕ × Pointer) (s : Server) → NoThrow (greet json entry s)
    unfolding send_to
    greet-NoThrow (id, p) s =
        continue-NoThrow _ _
          (call_session-NoThrow p (send json (handshake json id)) s
            (λ o. send-NoThrow _ o (handshake-IsUtf8 id)))
          λ _ t. continue-NoThrow _ _ (call_session-NoThrow p _ t (λ o x e. cc)) λ _ u x e. cc

    on_accept-NoThrow : (ec : Bool) (s : Server) → NoThrow (on_accept json ec s)
    unfolding on_accept add_session
    on_accept-NoThrow true s = λ x e. cc
    on_accept-NoThrow false s = greet-NoThrow _ _

    handler-NoThrow :
        (event : Event) (s : Server) → CanServe json s → NoThrow (handler json event s)
    unfolding on_resource_tick
    handler-NoThrow (accepted ec) s h = on_accept-NoThrow ec s
    handler-NoThrow (fired true) s h = λ x e. cc
    handler-NoThrow (fired false) s h =
        returned-NoThrow (on_resource_tick json false (record s { timer_set = false })) tt
          (tick_total json lawful _ (set_CanServe json lawful s false h)).0
    handler-NoThrow (turned ref) s h =
        call_session-NoThrow (some ref) run_posted s run_posted-NoThrow
    handler-NoThrow (wrote ref ec) s h = on_written-NoThrow (some ref) ec s
    handler-NoThrow (arrived ref bytes) s h = call_session-NoThrow (some ref) _ s (λ o x e. cc)
    handler-NoThrow (completed ref ec) s h = on_read-NoThrow (some ref) ec s

    pub step-CanServe :
        (event : Event) (s : Server)
        → CanServe json s
        → (step json event s).0 ≡ ok tt
        → CanServe json (step json event s).1
    step-CanServe event s h e = record {
      formed = After-ok IsWellFormed (step json event s) tt e (step-After json event s h.formed);
      can_save = KeepsSaving-step json lawful event s h.can_save;
    }

    pub step-NoThrow : (event : Event) (s : Server) → CanServe json s → NoThrow (step json event s)
    unfolding step
    step-NoThrow event s h = elim (Bool-cases (ready event s)) [
      | inl e ↦ rw e (handler-NoThrow event s h)
      | inr e ↦ rw e (λ x f. cc)
    ]

    -- From a server that can serve, no list of events makes an exception leave the loop.
    pub run-NoThrow :
        (events : List Event) (s : Server) → CanServe json s → NoThrow (run json events s)
    unfolding run
    run-NoThrow [] s h = λ x e. cc
    run-NoThrow (event ∷ rest) s h =
        go (step json event s) (step-NoThrow event s h) (step-CanServe event s h)
          (λ t c. run-NoThrow rest t c)
      where
        go :
            (r : Outcome (Unit {0}) × Server)
            → NoThrow r
            → (r.0 ≡ ok tt → CanServe json r.1)
            → ((t : Server) → CanServe json t → NoThrow (run json rest t))
            → NoThrow (continue r (λ _. run json rest))
        go (ok _, t) n c later = later t (c refl)
        go (throw y, t) n c later = λ x e. n y refl
        go (crash, t) n c later = λ x e. cc

    -- With a JSON library as documented and 64-bit draws: once main has started the server on a disk
    -- that opens and renames files, no exception ends it, whatever the events.
    pub main-NoThrow :
        (filepath : Text) (disk : Disk) (generator : Generator) (server : Server)
        (events : List Event) (x : Exception)
        → disk.can_open ≡ true
        → disk.can_rename ≡ true
        → InRange generator
        → boot json filepath disk generator ≡ ok server
        → server_main json filepath disk generator events ≢ throw x
    unfolding server_main
    main-NoThrow filepath disk generator server events x opens renames draws e f =
        let h = boot-CanServe json lawful filepath disk generator server opens renames draws e in
        go (run json events server) (run-NoThrow events server h) (ground (arith, e, f))
      where
        go : (r : Outcome (Unit {0}) × Server) → NoThrow r → reached r ≢ throw x
        go (ok _, t) n g = cc
        go (throw y, t) n g = n y refl
        go (crash, t) n g = cc
