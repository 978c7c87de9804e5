-- ===== src/Server/Unfailing.antt =====
-- Which events return: all, but for a failed accept and a read of a session whose client id is gone
-- from m_sessions
-- (server/src/Server.cpp, server/src/Session.cpp, server/src/main.cpp).
use net_pixeld.Prelude.{
  ℕ, ◌≡◌, ◌≢◌, refl, ap, ◌∙◌, inl, inr, Bool, true, false, some, List, [], ◌∷◌, arith, nat_eq,
  get_elem?, get_elem?-lt, get_elem?-set_self, Option-cases, is_empty, not,
}
use net_pixeld.Prelude.Outcome.{Outcome, ok, throw, crash}
use net_pixeld.Prelude.Exec.{Exec, continue-ok}
use net_pixeld.Prelude.Umap.{find}
use net_pixeld.Json.{Json, IsLawful}
use net_pixeld.Session.{Session, run_posted, on_write, arrive}
use net_pixeld.Session.Writes.{IsOrderly, move-Keeps, move, turns, completes}
use net_pixeld.Server.State.{Server, Pointer}
use net_pixeld.Server.Sessions.{read_session, call_session}
use net_pixeld.Server.Events.{
  Event, accepted, fired, turned, wrote, arrived, completed, ready, readable, session_ready,
  handler, step, run, on_read, on_accept, on_written, disconnect_if,
}
use net_pixeld.Server.Tick.{on_resource_tick}
use net_pixeld.Server.Invariant.{IsWellFormed}
use net_pixeld.Server.Ids.{on_accept_lem, on_read_failed}
use net_pixeld.Server.Returning.{CanServe, serialize_total}
use net_pixeld.Server.Clock.{tick_total, set_CanServe}
use net_pixeld.Server.Hearing.{Hears, Safe-call_session, Safe-receive}
use net_pixeld.Server.Steady.{NoThrow, step-CanServe, step-NoThrow, handshake-IsUtf8}

returned : (r : Outcome (Unit {0}) × Server) → NoThrow r → r.0 ≢ crash → r.0 ≡ ok tt
returned (ok _, s) n c = refl
returned (throw x, s) n c = absurd (n x refl)
returned (crash, s) n c = absurd (c refl)

not_crash : (r : Outcome (Unit {0})) → r ≡ ok tt → r ≢ crash
not_crash r e f = cc

-- A session that is ready for an event is there.
ready_object :
    (test : Session → Bool) (ref : ℕ) (s : Server)
    → session_ready test ref s ≡ true
    → (o : Session) × (get_elem? s.objects ref ≡ some o)
ready_object test ref s e = elim (Option-cases (get_elem? s.objects ref)) [
  | inl missing ↦ ground (arith, missing, e)
  | inr there ↦ there
]

call_session-returns :
    {A : Type 0} (ref : ℕ) (method : Exec Session A) (s : Server) (o : Session)
    → get_elem? s.objects ref ≡ some o
    → (call_session (some ref) method s).0 ≡ (method o).0
unfolding call_session read_session
call_session-returns ref method s o e = rw e

run_posted-returns : (o : Session) → IsOrderly o → (run_posted o).0 ≡ ok tt
unfolding move
run_posted-returns o h = (move-Keeps turns o h).returns

on_write-returns :
    (ec : Bool) (o : Session) → IsOrderly o → (failed : Bool) × ((on_write ec o).0 ≡ ok failed)
unfolding move
on_write-returns ec o h = go (on_write ec o).0 refl (move-Keeps (completes ec) o h).returns
  where
    go :
        (r : Outcome Bool)
        → (on_write ec o).0 ≡ r
        → (move (completes ec) o).0 ≡ ok tt
        → (failed : Bool) × (r ≡ ok failed)
    go (ok failed) e f = (failed, refl)
    go (throw x) e f = ground (arith, e, f)
    go crash e f = ground (arith, e, f)

on_written-returns :
    (ref : ℕ) (ec : Bool) (s : Server) (o : Session)
    → get_elem? s.objects ref ≡ some o
    → IsOrderly o
    → (on_written (some ref) ec s).0 ≡ ok tt
unfolding on_written call_session read_session
on_written-returns ref ec s o e h =
    let (failed, result) = on_write-returns ec o h in
    let again = get_elem?-set_self s.objects ref o (get_elem?-lt s.objects ref o e) in
    rw (e, again, result) (disconnects failed _ _)
  where
    disconnects : (b : Bool) (id : ℕ) (t : Server) → (disconnect_if b id t).0 ≡ ok tt
    disconnects true id t = refl
    disconnects false id t = refl

-- No accept fails, and a read that completes is that of a session whose client id is in m_sessions.
abbrev pub IsBenign : Event → Server → Type 0
IsBenign (completed ref false) s =
    (o : Session)
    → get_elem? s.objects ref ≡ some o
    → (p : Pointer) × (find o.client_id s.sessions ≡ some p)
IsBenign (accepted ec) s = ec ≡ false
IsBenign _ s = Unit {0}

module _ (json : Json) where
  -- Each of the events is so when its turn comes.
  abbrev pub AllBenign : List Event → Server → Type 0
  AllBenign [] s = Unit {0}
  AllBenign (event ∷ rest) s = IsBenign event s × AllBenign rest (step json event s).1

  on_read-no_crash :
      (ref : ℕ) (s : Server) (o : Session) (p : Pointer)
      → IsWellFormed s
      → get_elem? s.objects ref ≡ some o
      → find o.client_id s.sessions ≡ some p
      → (on_read json (some ref) false s).0 ≢ crash
  unfolding on_read call_session read_session
  on_read-no_crash ref s o p w e f =
      let noted : Exec Session ℕ = λ o. (ok o.client_id, record o { reading = false }) in
      let before : Hears o.client_id p ref s = record {
        entry = f;
        leads = w.pointers o.client_id p f;
        reader = (o, e);
      } in
      let (_, after) =
        Safe-call_session o.client_id p ref ref noted s (o, e) (λ o. (λ e. cc, refl)) before in
      rw e (Safe-receive o.client_id p ref json _ (rw e at after)).0

  module _ (lawful : IsLawful json) where
    handler-returns :
        (event : Event) (s : Server)
        → CanServe json s
        → ready event s ≡ true
        → IsBenign event s
        → (handler json event s).0 ≢ crash
    unfolding on_accept on_resource_tick
    handler-returns (accepted true) s h r u = λ e. cc u
    handler-returns (accepted false) s h r u =
        let (wire, sent) =
          serialize_total json lawful _ (handshake-IsUtf8 json lawful s.next_client_id) in
        not_crash _ (ap (λ r. r.0) (on_accept_lem json s wire sent))
    handler-returns (fired true) s h r u = λ e. cc
    handler-returns (fired false) s h r u =
        not_crash _ (tick_total json lawful _ (set_CanServe json lawful s false h)).0
    handler-returns (turned ref) s h r u =
        let (o, there) = ready_object (λ s. not (is_empty s.posted)) ref s r in
        not_crash _ (
          call_session-returns ref run_posted s o there
          ∙ run_posted-returns o (h.formed.orderly ref o there))
    handler-returns (wrote ref ec) s h r u =
        let (o, there) = ready_object (λ s. not (is_empty s.writes)) ref s r in
        not_crash _ (on_written-returns ref ec s o there (h.formed.orderly ref o there))
    handler-returns (arrived ref bytes) s h r u =
        let (o, there) = ready_object (λ _. true) ref s r in
        not_crash _ (call_session-returns ref (λ s. (ok tt, arrive bytes s)) s o there)
    handler-returns (completed ref true) s h r u =
        let (o, there) = ready_object (readable true) ref s r in
        not_crash _ (on_read_failed json s ref o there).0
    handler-returns (completed ref false) s h r u =
        let (o, there) = ready_object (readable false) ref s r in
        let (p, found) = u o there in on_read-no_crash ref s o p h.formed there found

    -- An event returns unless it is a failed accept or a read of a session whose client id is gone.
    pub step-returns :
        (event : Event) (s : Server)
        → CanServe json s
        → IsBenign event s
        → (step json event s).0 ≡ ok tt
    step-returns event s h u =
        returned (step json event s) (step-NoThrow json lawful event s h) (go (ready event s) refl)
      where
        go : (b : Bool) → ready event s ≡ b → (step json event s).0 ≢ crash
        go true r = unfold step in rw r (handler-returns event s h r u)
        go false r = unfold step in rw r (λ e. cc)

    -- With a JSON library as documented, from a server that is well-formed and can save its
    -- accounts: events among which no accept fails, and of which each read that completes without an
    -- error is of a session whose client id is in m_sessions at that time, all return, neither
    -- throwing nor crashing, and the server is well-formed and can save after them.
    pub run-returns :
        (events : List Event) (s : Server)
        → CanServe json s
        → AllBenign events s
        → ((run json events s).0 ≡ ok tt) × CanServe json (run json events s).1
    unfolding run
    run-returns [] s h u = (refl, h)
    run-returns (event ∷ rest) s h u =
        let first = step-returns event s h u.0 in
        let after = step-CanServe json lawful event s h first in
        rw (continue-ok (step json event s) (λ _. run json rest) tt first)
          (run-returns rest (step json event s).1 after u.1)
