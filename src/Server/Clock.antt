-- ===== src/Server/Clock.antt =====
-- The resource timer on a server that can serve: tick after tick (server/src/Server.cpp).
use net_pixeld.Prelude.{
  ℕ, zero, suc, ◌+◌, ◌*◌, ◌≡◌, refl, ap, ap₂, ◌∙◌, Bool, true, false, arith, Text, nat_eq,
  replicate, if◌then◌else◌,
}
use net_pixeld.Prelude.Outcome.{Outcome, ok, throw, crash}
use net_pixeld.Prelude.Exec.{continue-ok}
use net_pixeld.Prelude.Umap.{Distinct-All}
use net_pixeld.Json.{Json, IsLawful}
use net_pixeld.Resource.{Resources}
use net_pixeld.Db.Queries.{get_resources}
use net_pixeld.Server.State.{Server, schedule_resource_tick}
use net_pixeld.Server.Tick.{add_ten, tick_sessions, on_resource_tick}
use net_pixeld.Server.Events.{fired, handler, step, run}
use net_pixeld.Server.LoggedIn.{map_ok, turns, turns-eq, uuid_at-objects}
use net_pixeld.Server.Ticks.{
  map_ok-add_turns_zero, add_turns, uuid_at-tick_sessions, tick_resources,
}
use net_pixeld.Server.Returning.{CanServe, Serves, tick_sessions_total}

add_turns-add :
    (n m : ℕ) (r : Outcome Resources)
    → map_ok (add_turns n) (map_ok (add_turns m) r) ≡ map_ok (add_turns (m + n)) r
add_turns-add n m (ok r) = ap (λ a. ok a) (go m r)
  where
    go : (m : ℕ) (r : Resources) → add_turns n (add_turns m r) ≡ add_turns (m + n) r
    go zero r = let e : 0 + n ≡ n = omega arith in rw e
    go (suc m) r = let e : suc m + n ≡ suc (m + n) = omega arith in rw e (go m (add_ten r))
add_turns-add n m (throw x) = refl
add_turns-add n m crash = refl

module _ (json : Json) where
  -- Ticks, and nothing else.
  abbrev pub clock : ℕ → Server → Outcome (Unit {0}) × Server
  clock n s = run json (replicate n (fired false)) s

module _ (json : Json) (lawful : IsLawful json) where
  pub set_CanServe :
      (s : Server) (b : Bool) → CanServe json s → CanServe json (record s { timer_set = b })
  set_CanServe s b h = record {
    formed = record {
      pointers = h.formed.pointers;
      known = h.formed.known;
      orderly = h.formed.orderly;
      distinct = h.formed.distinct;
      next_fits = h.formed.next_fits;
    };
    can_save = h.can_save;
  }

  abbrev unset : Server → Server
  unset s = record s { timer_set = false }

  ticked :
      (s : Server)
      → CanServe json s
      → (tick_sessions json s.sessions s).0 ≡ ok tt
        × Serves json s.sessions (tick_sessions json s.sessions s).1
  ticked s h =
      tick_sessions_total json lawful s.sessions s.sessions s
        (Distinct-All s.sessions h.formed.distinct) (record { serving = h; same = refl })

  -- One tick.
  pub tick_total :
      (s : Server)
      → CanServe json s
      → let after = on_resource_tick json false s in
        (after.0 ≡ ok tt)
        × CanServe json after.1
        × (after.1.timer_set ≡ true)
        × ((v : Text) → turns v after.1.sessions after.1 ≡ turns v s.sessions s)
  unfolding on_resource_tick schedule_resource_tick
  tick_total s h =
      let (returned, kept) = ticked s h in
      let after = (tick_sessions json s.sessions s).1 in
      let same = λ (v : Text).
        ap (λ m. turns v m (schedule_resource_tick after)) kept.same
        ∙ turns-eq v s.sessions (schedule_resource_tick after) s (λ q.
          uuid_at-objects q (schedule_resource_tick after) after refl
          ∙ uuid_at-tick_sessions json q s.sessions s returned) in
      rw
        (continue-ok (tick_sessions json s.sessions s) (λ _ t. (ok tt, schedule_resource_tick t)) tt
          returned)
        (refl, set_CanServe after true kept.serving, refl, same)

  -- The event of the timer, where it is set.
  fired_step :
      (s : Server)
      → s.timer_set ≡ true
      → step json (fired false) s ≡ on_resource_tick json false (unset s)
  unfolding step
  fired_step s e = ap (λ b. if b then handler json (fired false) s else (ok tt, s)) e

  pub fired_lem :
      (s : Server)
      → CanServe json s
      → s.timer_set ≡ true
      → let after = step json (fired false) s in
        (after.0 ≡ ok tt)
        × CanServe json after.1
        × (after.1.timer_set ≡ true)
        × ((v : Text)
            → (turns v after.1.sessions after.1 ≡ turns v s.sessions s)
              × (get_resources v after.1.db
                  ≡ map_ok (add_turns (turns v s.sessions s)) (get_resources v s.db)))
  fired_lem s h e =
      let before = set_CanServe s false h in
      let (returned, kept, timed, same) = tick_total (unset s) before in
      let start =
        λ (v : Text). turns-eq v s.sessions (unset s) s (λ q. uuid_at-objects q (unset s) s refl) in
      rw (fired_step s e) (
        returned,
        kept,
        timed,
        λ v. (
          same v ∙ start v,
          (tick_resources json v (unset s) returned).0
              ∙ ap (λ n. map_ok (add_turns n) (get_resources v s.db)) (start v),
        ),
      )

  -- With a JSON library as documented, on a server that is well-formed, can save its accounts and
  -- has the timer set: any number of ticks return and leave the server so; getResources of any uuid
  -- then returns what it returned before with, modulo 2 ^ 64, 10 more of each resource for each of
  -- the ticks and each session in m_sessions that is logged in with the uuid, or throws as before.
  pub clock_lem :
      (n : ℕ) (s : Server)
      → CanServe json s
      → s.timer_set ≡ true
      → ((clock json n s).0 ≡ ok tt)
        × CanServe json (clock json n s).1
        × ((clock json n s).1.timer_set ≡ true)
        × ((v : Text)
            → get_resources v (clock json n s).1.db
              ≡ map_ok (add_turns (n * turns v s.sessions s)) (get_resources v s.db))
  unfolding run
  clock_lem zero s h e = (
    refl,
    h,
    e,
    λ v.
        let none : 0 ≡ 0 * turns v s.sessions s = omega arith in
        map_ok-add_turns_zero (get_resources v s.db)
        ∙ ap (λ k. map_ok (add_turns k) (get_resources v s.db)) none,
  )
  clock_lem (suc n) s h e =
      let (returned, kept, timed, turn) = fired_lem s h e in
      let after = (step json (fired false) s).1 in
      let (rest, served, set, all) = clock_lem n after kept timed in
      let first =
        continue-ok (step json (fired false) s) (λ _. run json (replicate n (fired false))) tt
          returned in
      rw first (
        rest,
        served,
        set,
        λ v.
            let t = turns v s.sessions s in
            let more : t + n * t ≡ suc n * t = omega arith in
            all v
            ∙ ap₂ (λ k r. map_ok (add_turns (n * k)) r) (turn v).0 (turn v).1
            ∙ add_turns-add (n * t) t (get_resources v s.db)
            ∙ ap (λ k. map_ok (add_turns k) (get_resources v s.db)) more,
      )
