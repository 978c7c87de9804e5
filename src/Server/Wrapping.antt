-- ===== src/Server/Wrapping.antt =====
-- Client ids wrap around at 256: which session an id leads to after many connections
-- (server/src/Server.cpp).
use net_pixeld.Prelude.{
  ℕ, zero, suc, ◌+◌, ◌-◌, ◌%◌, ◌<◌, ◌≤◌, ◌≡◌, ◌≢◌, refl, ap, ap₂, ◌∙◌, inl, inr, true, false,
  Option, some, [], ◌∷◌, ◌++◌, arith, Text, nat_eq, ltb, ◌==◌, eqb_iff, length, length-append,
  replicate, if◌then◌else◌, Bool-cases,
}
use net_pixeld.Prelude.Outcome.{Outcome, ok}
use net_pixeld.Prelude.Umap.{find, assign, find-assign}
use net_pixeld.Json.{Json, IsLawful}
use net_pixeld.Session.{new_session, post, start}
use net_pixeld.Server.State.{Server, Pointer}
use net_pixeld.Server.Events.{accepted, step, run, on_accept}
use net_pixeld.Server.Ids.{on_accept_lem}
use net_pixeld.Server.Returning.{serialize_total}
use net_pixeld.Server.Steady.{handshake-IsUtf8}

-- how many connections after the one with the id `i` the id is `j`, below 256
abbrev pub offset : ℕ → ℕ → ℕ
offset i j = (j + 256 - i) % 256

-- what an id leads to after `n` connections, the first of which gets the id `i`
abbrev pub led : ℕ → ℕ → ℕ → ℕ → Option Pointer → Option Pointer
led n i size j before = if ltb (offset i j) n then some (some (size + offset i j)) else before

led-suc :
    (n i size j : ℕ) (before : Option Pointer)
    → i < 256
    → j < 256
    → n < 256
    → led n ((i + 1) % 256) (size + 1) j (if i == j then some (some size) else before)
      ≡ led (suc n) i size j before
led-suc n i size j before hi hj hn = elim (Bool-cases (i == j)) [
  | inl hit ↦
      let same : i ≡ j = (eqb_iff i j).0 hit in
      let far : ltb (offset ((i + 1) % 256) j) n ≡ false = ground (arith, same, hj, hn) in
      let here : offset i j ≡ 0 = omega (arith, same, hj) in
      let near : ltb 0 (suc n) ≡ true = ground arith in
      let at : size + 0 ≡ size = omega arith in rw (far, hit, here, near, at)
  | inr miss ↦
      let apart : i ≢ j = λ q. cc (miss, (eqb_iff i j).1 q) in
      let further : offset i j ≡ suc (offset ((i + 1) % 256) j) = omega (arith, apart, hi, hj) in
      let at : size + 1 + offset ((i + 1) % 256) j ≡ size + suc (offset ((i + 1) % 256) j) =
        omega arith in
      let test : ltb (suc (offset ((i + 1) % 256) j)) (suc n) ≡ ltb (offset ((i + 1) % 256) j) n =
        ground arith in
      rw (miss, further, test, at)
]

led-zero : (i size j : ℕ) (before : Option Pointer) → before ≡ led 0 i size j before
led-zero i size j before = let none : ltb (offset i j) 0 ≡ false = ground arith in rw none

module _ (json : Json) where
  -- connections, and nothing else
  abbrev pub connections : ℕ → Server → Outcome (Unit {0}) × Server
  connections n s = run json (replicate n (accepted false)) s

module _ (json : Json) (lawful : IsLawful json) where
  accept_step :
      (s : Server)
      → s.accepting ≡ true
      → (wire : Text) × (step json (accepted false) s ≡ (
        ok tt,
        record s {
          accepting = true;
          next_client_id = (s.next_client_id + 1) % 256;
          objects = s.objects ++ start (post wire (new_session s.next_client_id)) ∷ [];
          sessions = assign s.next_client_id (some (length s.objects)) s.sessions;
        },
      ))
  unfolding step
  accept_step s e =
      let (wire, sent) =
        serialize_total json lawful _ (handshake-IsUtf8 json lawful s.next_client_id) in
      (
        wire,
        ap (λ b. if b then on_accept json false s else (ok tt, s)) e
            ∙ on_accept_lem json s wire sent,
      )

  run_connections :
      (n : ℕ) (s : Server)
      → s.accepting ≡ true
      → s.next_client_id < 256
      → n ≤ 256
      → ((connections json n s).0 ≡ ok tt)
        × ((connections json n s).1.next_client_id ≡ (s.next_client_id + n) % 256)
        × ((j : ℕ)
            → j < 256
            → find j (connections json n s).1.sessions
              ≡ led n s.next_client_id (length s.objects) j (find j s.sessions))
  unfolding run
  run_connections zero s e h small =
      (refl, omega (arith, h), λ j f. led-zero s.next_client_id (length s.objects) j _)
  run_connections (suc n) s e h small =
      let (wire, first) = accept_step s e in
      let i = s.next_client_id in
      let fresh = start (post wire (new_session i)) in
      let after = record s {
        accepting = true;
        next_client_id = (i + 1) % 256;
        objects = s.objects ++ fresh ∷ [];
        sessions = assign i (some (length s.objects)) s.sessions;
      } in
      let (returned, counted, found) = run_connections n after refl (omega arith) (omega arith) in
      let size : length (s.objects ++ fresh ∷ []) ≡ length s.objects + 1 =
        length-append s.objects (fresh ∷ []) in
      rw first (
        returned,
        counted ∙ omega arith,
        λ j f.
            found j f
            ∙ ap₂ (λ k b. led n ((i + 1) % 256) k j b) size
                (find-assign i j (some (length s.objects)) s.sessions)
            ∙ led-suc n i (length s.objects) j (find j s.sessions) h f (omega arith),
      )

  -- With a JSON library as documented: after at most 256 connections in a row the next client id is
  -- their number further on modulo 256, and each of the ids that they were given, counted modulo
  -- 256, leads to the new session, whatever it led to before; the other ids lead to what they did.
  pub connections_lem :
      (n j : ℕ) (s : Server)
      → s.accepting ≡ true
      → s.next_client_id < 256
      → n ≤ 256
      → j < 256
      → ((connections json n s).0 ≡ ok tt)
        × ((connections json n s).1.next_client_id ≡ (s.next_client_id + n) % 256)
        × (find j (connections json n s).1.sessions
            ≡ led n s.next_client_id (length s.objects) j (find j s.sessions))
  connections_lem n j s e h small f =
      let (returned, counted, found) = run_connections n s e h small in
      (returned, counted, found j f)
