-- ===== src/Server/Delivering.antt =====
-- What a session has been given to send reaches its socket through the server's events
-- (server/src/Server.cpp, server/src/Session.cpp).
use net_pixeld.Prelude.{
  ℕ, ◌≡◌, sym, ap, subst, ◌∙◌, inl, inr, Bool, true, false, not, some, List, [], ◌∷◌, ◌++◌, arith,
  is_empty, if◌then◌else◌, get_elem?, set, set-set, set_get, get_elem?-set_self, get_elem?-lt,
  Bool-cases, Text, All, ◌⊎◌,
}
use net_pixeld.Prelude.Outcome.{ok}
use net_pixeld.Prelude.Exec.{Exec, continue, continue-ok}
use net_pixeld.Json.{Json}
use net_pixeld.Session.{Session, post, run_posted, on_write}
use net_pixeld.Session.Writes.{
  Move, posts, turns, completes, move, moves, pending, unit-state, IsOrderly, move-Keeps,
}
use net_pixeld.Session.Delivery.{IsProgress, delivered}
use net_pixeld.Server.State.{Server}
use net_pixeld.Server.Sessions.{read_session, call_session}
use net_pixeld.Server.Events.{Event, turned, wrote, ready, handler, step, run, on_written}

abbrev event_of : ℕ → Move → Event
event_of ref turns = turned ref
event_of ref (completes ec) = wrote ref ec
event_of ref (posts text) = turned ref

abbrev pub events_of : ℕ → List Move → List Event
events_of ref [] = []
events_of ref (m ∷ ms) = event_of ref m ∷ events_of ref ms

abbrev at : ℕ → Session → Server → Server
at ref o s = record s { objects = set s.objects ref o }

module _ (json : Json) (ref : ℕ) (s : Server) (o : Session)
    (there : get_elem? s.objects ref ≡ some o) (h : IsOrderly o) where
  same : at ref o s ≡ s
  same = ap (λ os. record s { objects = os }) (set_get s.objects ref o there)

  call_lem :
      {A : Type 0} (method : Exec Session A)
      → call_session (some ref) method s ≡ ((method o).0, at ref (method o).1 s)
  unfolding call_session read_session
  call_lem method = rw there

  -- an event, by whether it is ready
  step_lem :
      (event : Event) (b : Bool)
      → ready event s ≡ b
      → step json event s ≡ (if b then handler json event s else (ok tt, s))
  unfolding step
  step_lem event b e = ap (λ c. if c then handler json event s else (ok tt, s)) e

  step_turned : step json (turned ref) s ≡ (ok tt, at ref (move turns o).1 s)
  unfolding move run_posted
  step_turned =
      let returned = (move-Keeps turns o h).returns in
      let is_ready : ready (turned ref) s ≡ not (is_empty o.posted) = ground (arith, there) in
      elim (Bool-cases (is_empty o.posted)) [
        | inl e ↦
            let idle : run_posted o ≡ (ok tt, o) = ground (arith, e) in
            step_lem (turned ref) false (is_ready ∙ ap not e)
            ∙ ap (λ t. (ok tt, t)) (sym same ∙ ap (λ r. at ref r.1 s) (sym idle))
        | inr e ↦
            step_lem (turned ref) true (is_ready ∙ ap not e)
            ∙ call_lem run_posted
            ∙ ap (λ r. (r, at ref (run_posted o).1 s)) returned
      ]

  wrote_returns : (on_write false o).0 ≡ ok false
  unfolding move on_write
  wrote_returns = ground (arith, (move-Keeps (completes false) o h).returns)

  on_written_lem : on_written (some ref) false s ≡ (ok tt, at ref (on_write false o).1 s)
  unfolding on_written call_session read_session
  on_written_lem =
      let again = get_elem?-set_self s.objects ref o (get_elem?-lt s.objects ref o there) in
      rw (there, again, wrote_returns, set-set s.objects ref o (on_write false o).1)

  step_wrote : step json (wrote ref false) s ≡ (ok tt, at ref (move (completes false) o).1 s)
  unfolding move on_write
  step_wrote =
      let is_ready : ready (wrote ref false) s ≡ not (is_empty o.writes) = ground (arith, there) in
      let after : (move (completes false) o).1 ≡ (on_write false o).1 =
        unit-state (on_write false o) in
      elim (Bool-cases (is_empty o.writes)) [
        | inl e ↦
            let idle : (on_write false o).1 ≡ o = ground (arith, e) in
            step_lem (wrote ref false) false (is_ready ∙ ap not e)
            ∙ ap (λ t. (ok tt, t)) (sym same ∙ ap (λ r. at ref r s) (sym (after ∙ idle)))
        | inr e ↦
            step_lem (wrote ref false) true (is_ready ∙ ap not e)
            ∙ on_written_lem
            ∙ ap (λ r. (ok tt, at ref r s)) (sym after)
      ]

-- a session's moves as the server's events
module _ (json : Json) (ref : ℕ) where
  abbrev Steps : Server → Session → Move → Type 0
  Steps s o m = step json (event_of ref m) s ≡ (ok tt, at ref (move m o).1 s)

  run-moves :
      (ms : List Move) (s : Server) (o : Session)
      → get_elem? s.objects ref ≡ some o
      → IsOrderly o
      → IsProgress ms
      → run json (events_of ref ms) s ≡ (ok tt, at ref (moves ms o).1 s)
  unfolding run moves
  run-moves [] s o there h p = ap (λ t. (ok tt, t)) (sym (same json ref s o there h))
  run-moves (m ∷ ms) s o there h (now, later) =
      let k = move-Keeps m o h in
      let after = at ref (move m o).1 s in
      let first : step json (event_of ref m) s ≡ (ok tt, after) = elim now [
        | inl e ↦ subst (Steps s o) (sym e) (step_turned json ref s o there h)
        | inr e ↦ subst (Steps s o) (sym e) (step_wrote json ref s o there h)
      ] in
      let found =
        get_elem?-set_self s.objects ref (move m o).1 (get_elem?-lt s.objects ref o there) in
      let rest = run-moves ms after (move m o).1 found k.orderly later in
      let through = continue-ok (move m o) (λ _. moves ms) tt k.returns in
      ap (λ r. continue r (λ _. run json (events_of ref ms))) first
      ∙ rest
      ∙ ap (λ os. (ok tt, record s { objects = os }))
          (set-set s.objects ref (move m o).1 (moves ms (move m o).1).1)
      ∙ ap (λ r. (ok tt, at ref r.1 s)) (sym through)

  progress :
      (ms : List Move)
      → IsProgress ms
      → All (λ event. (event ≡ turned ref) ⊎ (event ≡ wrote ref false)) (events_of ref ms)
  progress [] p = tt
  progress (m ∷ ms) (now, later) = (
    elim now [ inl e ↦ inl (ap (event_of ref) e) | inr e ↦ inr (ap (event_of ref) e) ],
    progress ms later,
  )

  -- Where an object of the server is a session in which one write is in progress exactly while a
  -- text is queued, and whose writes have not failed: some events, turns of its strand and writes of
  -- it that succeed, all return and lead to its socket having taken all that was sent, queued and
  -- posted, in order.
  pub served :
      (s : Server) (o : Session)
      → get_elem? s.objects ref ≡ some o
      → IsOrderly o
      → o.broken ≡ false
      → (events : List Event) × All
          (λ event. (event ≡ turned ref) ⊎ (event ≡ wrote ref false))
          events
        × ((run json events s).0 ≡ ok tt)
        × (o' : Session) × (get_elem? (run json events s).1.objects ref ≡ some o')
        × (o'.sent ≡ pending o)
  served s o there h healthy =
      let (ms, fine, sent) = delivered o h healthy in
      let ran = run-moves ms s o there h fine in
      (
        events_of ref ms,
        progress ms fine,
        ap (λ r. r.0) ran,
        (moves ms o).1,
        ap (λ r. get_elem? r.1.objects ref) ran
            ∙ get_elem?-set_self s.objects ref (moves ms o).1 (get_elem?-lt s.objects ref o there),
        sent,
      )

  -- a text that was posted
  pub served-post :
      (text : Text) (s : Server) (o : Session)
      → get_elem? s.objects ref ≡ some (post text o)
      → IsOrderly o
      → o.broken ≡ false
      → (events : List Event) × All
          (λ event. (event ≡ turned ref) ⊎ (event ≡ wrote ref false))
          events
        × ((run json events s).0 ≡ ok tt)
        × (o' : Session) × (get_elem? (run json events s).1.objects ref ≡ some o')
        × (o'.sent ≡ pending o ++ text ∷ [])
  unfolding move post
  served-post text s o there h healthy =
      let k = move-Keeps (posts text) o h in
      let (events, fine, ran, o', found, sent) = served s (post text o) there k.orderly healthy in
      (events, fine, ran, o', found, sent ∙ k.order)
