-- ===== src/Server/LoggedIn.antt =====
-- Who is logged in, and that a tick does not change it (server/src/Server.cpp).
use net_pixeld.Prelude.{
  ℕ, ◌+◌, ◌≡◌, refl, ap, ap₂, ◌∙◌, inl, inr, Bool, false, not, ◌&&◌, none, some, List, [], ◌∷◌,
  arith, Text, codes, text_eq, nat_eq, eqb, eqb_iff, ◌==◌, if◌then◌else◌, Option-cases, Bool-cases,
  is_empty, get_elem?, set, get_elem?-set_self, get_elem?-set_ne, get_elem?-lt,
}
use net_pixeld.Prelude.Outcome.{Outcome, ok, throw, crash}
use net_pixeld.Prelude.Exec.{continue}
use net_pixeld.Json.{Json}
use net_pixeld.Protocol.{Message}
use net_pixeld.Resource.{Resources}
use net_pixeld.Session.{Session, send, post}
use net_pixeld.Db.Types.{Db}
use net_pixeld.Db.Queries.{get_resources}
use net_pixeld.Db.Updates.{update_resources}
use net_pixeld.Server.State.{Server, Pointer}
use net_pixeld.Server.Sessions.{read_session, call_session, send_to}
use net_pixeld.Server.Tick.{add_ten, next_sequence, hand_out, give}

-- A session is logged in with the uuid `v`.
abbrev pub has_uuid : Text → Outcome Text → Bool
has_uuid v (ok u) = not (is_empty u) && u == v
has_uuid v _ = false

abbrev pub map_ok : {A B : Type 0} → (A → B) → Outcome A → Outcome B
map_ok f (ok a) = ok (f a)
map_ok f (throw x) = throw x
map_ok f crash = crash

-- the uuid behind a pointer
abbrev pub uuid_at : Pointer → Server → Outcome Text
uuid_at p s = map_ok (λ (o : Session). o.uuid) (read_session p s)

uuid_at-set :
    (q : Pointer) (ref : ℕ) (old new : Session) (s : Server)
    → get_elem? s.objects ref ≡ some old
    → new.uuid ≡ old.uuid
    → uuid_at q (record s { objects = set s.objects ref new }) ≡ uuid_at q s
unfolding read_session
uuid_at-set none ref old new s e same = refl
uuid_at-set (some r) ref old new s e same = elim (Bool-cases (eqb ref r)) [
  | inl hit ↦
      let at = (eqb_iff ref r).0 hit in
      let found = get_elem?-set_self s.objects ref new (get_elem?-lt s.objects ref old e) in
      rw (← at, found, e) (ap (λ u. ok u) same)
  | inr miss ↦ rw (get_elem?-set_ne s.objects ref r new (λ q. cc (miss, (eqb_iff ref r).1 q)))
]

pub uuid_at-objects :
    (q : Pointer) (s t : Server) → s.objects ≡ t.objects → uuid_at q s ≡ uuid_at q t
unfolding read_session
uuid_at-objects none s t e = refl
uuid_at-objects (some r) s t e = rw e

-- how many of the entries are sessions logged in with the uuid
abbrev pub turns : Text → List (ℕ × Pointer) → Server → ℕ
turns v [] s = 0
turns v ((id, p) ∷ rest) s = (if has_uuid v (uuid_at p s) then 1 else 0) + turns v rest s

pub turns-eq :
    (v : Text) (entries : List (ℕ × Pointer)) (s t : Server)
    → ((q : Pointer) → uuid_at q s ≡ uuid_at q t)
    → turns v entries s ≡ turns v entries t
turns-eq v [] s t e = refl
turns-eq v ((id, p) ∷ rest) s t e =
    ap₂ (λ u n. (if has_uuid v u then 1 else 0) + n) (e p) (turns-eq v rest s t e)

module _ (json : Json) where
  uuid-send : (msg : Message json.Value) (o : Session) → (send json msg o).1.uuid ≡ o.uuid
  unfolding send post
  uuid-send msg o = ground arith

  uuid_at-send_to :
      (q p : Pointer) (msg : Message json.Value) (s : Server)
      → uuid_at q (send_to json p msg s).1 ≡ uuid_at q s
  unfolding send_to call_session
  uuid_at-send_to q none msg s = refl
  uuid_at-send_to q (some ref) msg s = elim (Option-cases (get_elem? s.objects ref)) [
    | inl e ↦ rw (e, read_session)
    | inr (o, e) ↦
        rw (e, read_session) (uuid_at-set q ref o (send json msg o).1 s e (uuid-send msg o))
  ]

  uuid_at-sent :
      (q p : Pointer) (msg : Message json.Value) (r : Outcome (Unit {0}) × Db) (s : Server)
      → uuid_at q (continue (r.0, record s { db = r.1 }) (λ _. send_to json p msg)).1 ≡ uuid_at q s
  unfolding read_session
  uuid_at-sent q p msg (ok _, db) s =
      uuid_at-send_to q p msg (record s { db = db })
      ∙ uuid_at-objects q (record s { db = db }) s refl
  uuid_at-sent q p msg (throw x, db) s = uuid_at-objects q (record s { db = db }) s refl
  uuid_at-sent q p msg (crash, db) s = uuid_at-objects q (record s { db = db }) s refl

  uuid_at-hand_out :
      (q p : Pointer) (id : ℕ) (uuid : Text) (pool : Resources) (s : Server)
      → uuid_at q (hand_out json id p uuid pool s).1 ≡ uuid_at q s
  unfolding hand_out next_sequence
  uuid_at-hand_out q p id uuid pool s =
      let numbered = (next_sequence id (codes "ResourceUpdate") s).1 in
      uuid_at-sent q p _ (update_resources json uuid pool s.db) numbered
      ∙ uuid_at-objects q numbered s refl

  -- A turn of the loop logs nobody in or out.
  pub uuid_at-give :
      (q p : Pointer) (id : ℕ) (uuid : Text) (s : Server)
      → uuid_at q (give json id p uuid s).1 ≡ uuid_at q s
  unfolding give
  uuid_at-give q p id uuid s = go (get_resources uuid s.db) refl
    where
      go :
          (r : Outcome Resources)
          → get_resources uuid s.db ≡ r
          → uuid_at q (give json id p uuid s).1 ≡ uuid_at q s
      go (ok before) e = rw e (uuid_at-hand_out q p id uuid (add_ten before) s)
      go (throw x) e = rw e
      go crash e = rw e
