-- ===== src/Server/Ticks.antt =====
-- What a tick does to the resources and the sequence numbers (server/src/Server.cpp).
use net_pixeld.Prelude.{
  ℕ, zero, suc, ◌+◌, ◌≡◌, refl, sym, ap, ap₂, ◌∙◌, inl, inr, true, false, none, some, List, [], ◌∷◌,
  arith, Text, codes, text_eq, nat_eq, text_eqb_iff, ◌==◌, if◌then◌else◌, Option-cases, Bool-cases,
  is_empty,
}
use net_pixeld.Prelude.Outcome.{Outcome, ok, throw, crash}
use net_pixeld.Prelude.Exec.{continue, continue-inv}
use net_pixeld.Json.{Json}
use net_pixeld.Protocol.{Message}
use net_pixeld.Resource.{Resources}
use net_pixeld.Session.{Session, send}
use net_pixeld.Db.Types.{Db}
use net_pixeld.Db.Queries.{find_uuid, uuid_not_found, get_resources}
use net_pixeld.Db.Updates.{update_resources}
use net_pixeld.Db.Accounts.{get_resources-update_resources}
use net_pixeld.Server.State.{Server, Pointer, schedule_resource_tick}
use net_pixeld.Server.Sessions.{read_session, call_session, send_to}
use net_pixeld.Server.Tick.{
  add_ten, next_sequence, hand_out, give, tick_session, tick_sessions, on_resource_tick,
}
use net_pixeld.Server.LoggedIn.{has_uuid, map_ok, uuid_at, turns, turns-eq, uuid_at-give}

-- What a turn of the loop does to the resources of `v`.
abbrev given : Text → Pointer → Server → Outcome Resources
given v p s =
    if has_uuid v (uuid_at p s) then map_ok add_ten (get_resources v s.db) else get_resources v s.db

abbrev pub add_turns : ℕ → Resources → Resources
add_turns zero r = r
add_turns (suc n) r = add_turns n (add_ten r)

add_given :
    (v : Text) (p : Pointer) (n : ℕ) (s : Server)
    → map_ok (add_turns n) (given v p s)
      ≡ map_ok (add_turns ((if has_uuid v (uuid_at p s) then 1 else 0) + n)) (get_resources v s.db)
add_given v p n s = elim (Bool-cases (has_uuid v (uuid_at p s))) [
  | inl e ↦ let one : 1 + n ≡ suc n = omega arith in rw (e, one) (go (get_resources v s.db))
  | inr e ↦ let none : 0 + n ≡ n = omega arith in rw (e, none)
]
  where
    go :
        (r : Outcome Resources)
        → map_ok (add_turns n) (map_ok add_ten r) ≡ map_ok (add_turns (suc n)) r
    go (ok r) = refl
    go (throw x) = refl
    go crash = refl

pub map_ok-add_turns_zero : (r : Outcome Resources) → r ≡ map_ok (add_turns 0) r
map_ok-add_turns_zero (ok r) = refl
map_ok-add_turns_zero (throw x) = refl
map_ok-add_turns_zero crash = refl

module _ (json : Json) where
  db-send_to :
      (p : Pointer) (msg : Message json.Value) (s : Server) → (send_to json p msg s).1.db ≡ s.db
  unfolding send_to call_session read_session send
  db-send_to none msg s = refl
  db-send_to (some ref) msg s = ground arith

  db-sent :
      (p : Pointer) (msg : Message json.Value) (r : Outcome (Unit {0}) × Db) (s : Server)
      → (continue (r.0, record s { db = r.1 }) (λ _. send_to json p msg)).1.db ≡ r.1
  db-sent p msg (ok _, db) s = db-send_to p msg (record s { db = db })
  db-sent p msg (throw x, db) s = refl
  db-sent p msg (crash, db) s = refl

  pub db-hand_out :
      (id : ℕ) (p : Pointer) (uuid : Text) (pool : Resources) (s : Server)
      → (hand_out json id p uuid pool s).1.db ≡ (update_resources json uuid pool s.db).1
  unfolding hand_out next_sequence
  db-hand_out id p uuid pool s =
      db-sent p _ (update_resources json uuid pool s.db)
        (next_sequence id (codes "ResourceUpdate") s).1

  -- One turn of the loop.
  resources-give :
      (id : ℕ) (p : Pointer) (uuid v : Text) (s : Server)
      → (give json id p uuid s).0 ≡ ok tt
      → get_resources v (give json id p uuid s).1.db
        ≡ (if uuid == v then map_ok add_ten (get_resources v s.db) else get_resources v s.db)
  unfolding give
  resources-give id p uuid v s h = elim (Option-cases (find_uuid uuid s.db.accounts)) [
    | inl e ↦
        let unknown : get_resources uuid s.db ≡ throw (uuid_not_found uuid) =
          unfold get_resources in rw e in
        ground (arith, unknown)
    | inr (acc, e) ↦
        let before : get_resources uuid s.db ≡ ok acc.resources = unfold get_resources in rw e in
        rw
          (
            before,
            db-hand_out id p uuid (add_ten acc.resources) s,
            get_resources-update_resources json s.db uuid v (add_ten acc.resources) acc e,
          )
          (elim (Bool-cases (uuid == v)) [
            | inl hit ↦
                let same = (text_eqb_iff uuid v).0 hit in
                rw hit
                  (sym (ap (map_ok add_ten) (ap (λ u. get_resources u s.db) (sym same) ∙ before)))
            | inr miss ↦ rw miss
          ])
  ]

  tick_session_lem :
      (id : ℕ) (p : Pointer) (v : Text) (s : Server)
      → (tick_session json (id, p) s).0 ≡ ok tt
      → (get_resources v (tick_session json (id, p) s).1.db ≡ given v p s)
        × ((q : Pointer) → uuid_at q (tick_session json (id, p) s).1 ≡ uuid_at q s)
  unfolding tick_session
  tick_session_lem id p v s h = go (read_session p s) refl
    where
      go :
          (r : Outcome Session)
          → read_session p s ≡ r
          → (get_resources v (tick_session json (id, p) s).1.db ≡ given v p s)
            × ((q : Pointer) → uuid_at q (tick_session json (id, p) s).1 ≡ uuid_at q s)
      go (throw x) e = ground (arith, e, h)
      go crash e = ground (arith, e, h)
      go (ok o) e = elim (Bool-cases (is_empty o.uuid)) [
        | inl out ↦ rw (e, out) (refl, λ q. refl)
        | inr logged ↦
            let turn : (give json id p o.uuid s).0 ≡ ok tt = ground (arith, e, h, logged) in
            rw (e, logged)
              (resources-give id p o.uuid v s turn, λ q. uuid_at-give json q p id o.uuid s)
      ]

  tick_sessions_lem :
      (v : Text) (entries : List (ℕ × Pointer)) (s : Server)
      → (tick_sessions json entries s).0 ≡ ok tt
      → get_resources v (tick_sessions json entries s).1.db
        ≡ map_ok (add_turns (turns v entries s)) (get_resources v s.db)
  unfolding tick_sessions
  tick_sessions_lem v [] s h = map_ok-add_turns_zero (get_resources v s.db)
  tick_sessions_lem v ((id, p) ∷ rest) s h =
      let (_, first, e) =
        continue-inv (tick_session json (id, p) s) (λ _. tick_sessions json rest) tt h in
      let (one, same) = tick_session_lem id p v s first in
      let later = (tick_session json (id, p) s).1 in
      let more = tick_sessions_lem v rest later (sym (ap (λ r. r.0) e) ∙ h) in
      rw e (
        more
        ∙ ap₂ (λ n r. map_ok (add_turns n) r) (turns-eq v rest later s same) one
        ∙ add_given v p (turns v rest s) s)

  -- The loop logs nobody in or out.
  pub uuid_at-tick_sessions :
      (q : Pointer) (entries : List (ℕ × Pointer)) (s : Server)
      → (tick_sessions json entries s).0 ≡ ok tt
      → uuid_at q (tick_sessions json entries s).1 ≡ uuid_at q s
  unfolding tick_sessions
  uuid_at-tick_sessions q [] s h = refl
  uuid_at-tick_sessions q ((id, p) ∷ rest) s h =
      let (_, first, e) =
        continue-inv (tick_session json (id, p) s) (λ _. tick_sessions json rest) tt h in
      let (_, same) = tick_session_lem id p [] s first in
      let later = (tick_session json (id, p) s).1 in
      rw e (uuid_at-tick_sessions q rest later (sym (ap (λ r. r.0) e) ∙ h) ∙ same q)

  -- After a tick that returns, getResources of any uuid returns what it returned before with, modulo
  -- 2 ^ 64, 10 more of each resource for each session in m_sessions that is logged in with the uuid,
  -- or throws as before, and the timer is set again.
  pub tick_resources :
      (v : Text) (s : Server)
      → (on_resource_tick json false s).0 ≡ ok tt
      → (get_resources v (on_resource_tick json false s).1.db
          ≡ map_ok (add_turns (turns v s.sessions s)) (get_resources v s.db))
        × ((on_resource_tick json false s).1.timer_set ≡ true)
  unfolding on_resource_tick schedule_resource_tick
  tick_resources v s h =
      let (_, returned, e) = continue-inv (tick_sessions json s.sessions s) _ tt h in
      (rw e (tick_sessions_lem v s.sessions s returned), rw e)
