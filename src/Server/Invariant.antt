-- ===== src/Server/Invariant.antt =====
-- What holds of the server between two events (server/src/Server.cpp), and the steps on its parts
-- that keep it.
use net_pixeld.Prelude.{
  ℕ, ◌<◌, ◌≡◌, refl, sym, ap, ◌∙◌, subst, ◌⊎◌, inl, inr, none, some, List, [], Text, text_eq,
  nat_eq, eqb, eqb_iff, Option-cases, Bool-cases, get_elem?, set, get_elem?-set_self,
  get_elem?-set_ne, get_elem?-lt, length,
}
use net_pixeld.Prelude.Outcome.{Outcome, ok, throw, crash}
use net_pixeld.Prelude.Exec.{Exec}
use net_pixeld.Prelude.Triple.{After, Triple, After-state}
use net_pixeld.Prelude.Umap.{Umap, find, erase, find-erase, Distinct, erase-Distinct}
use net_pixeld.Session.{Session}
use net_pixeld.Session.Writes.{IsOrderly}
use net_pixeld.Db.Types.{Account, Db}
use net_pixeld.Db.Queries.{find_uuid}
use net_pixeld.Server.State.{Server, Pointer}
use net_pixeld.Server.Sessions.{read_session, call_session, call_db}

-- The pointer leads to a session of this client id.
pub record Leads (objects : List Session) (id : ℕ) (p : Pointer) : Type 0 where
  pub ref : ℕ
  pub session : Session
  pub points : p ≡ some ref
  pub there : get_elem? objects ref ≡ some session
  pub same_id : session.client_id ≡ id

-- The session is not logged in, or its uuid is that of an account.
abbrev pub IsKnown : Umap Text Account → Text → Type 0
IsKnown accounts uuid = (uuid ≡ []) ⊎ ((acc : Account) × (find_uuid uuid accounts ≡ some acc))

pub record IsWellFormed (server : Server) : Type 0 where
  pub pointers :
      (id : ℕ) (p : Pointer) → find id server.sessions ≡ some p → Leads server.objects id p
  pub known :
      (ref : ℕ) (s : Session)
      → get_elem? server.objects ref ≡ some s
      → IsKnown server.db.accounts s.uuid
  pub orderly : (ref : ℕ) (s : Session) → get_elem? server.objects ref ≡ some s → IsOrderly s
  -- a map has one entry for an id
  pub distinct : Distinct server.sessions
  pub next_fits : server.next_client_id < 256

pub Leads-set :
    (objects : List Session) (ref : ℕ) (old new : Session) (id : ℕ) (p : Pointer)
    → get_elem? objects ref ≡ some old
    → new.client_id ≡ old.client_id
    → Leads objects id p
    → Leads (set objects ref new) id p
Leads-set objects ref old new id p e same l = elim (Bool-cases (eqb ref l.ref)) [
  | inl hit ↦
      let at = (eqb_iff ref l.ref).0 hit in
      let found : old ≡ l.session = cc in
      record {
        ref = ref;
        session = new;
        points = l.points ∙ ap (λ r. some r) (sym at);
        there = get_elem?-set_self objects ref new (get_elem?-lt objects ref old e);
        same_id = same ∙ ap (λ s. s.client_id) found ∙ l.same_id;
      }
  | inr miss ↦ record {
    ref = l.ref;
    session = l.session;
    points = l.points;
    there =
        get_elem?-set_ne objects ref l.ref new (λ q. cc (miss, (eqb_iff ref l.ref).1 q)) ∙ l.there;
    same_id = l.same_id;
  }
]

-- What holds of every object and of a new one.
set_every :
    (P : Session → Type 0) (objects : List Session) (ref r : ℕ) (new s : Session)
    → ((i : ℕ) (o : Session) → get_elem? objects i ≡ some o → P o)
    → ref < length objects
    → P new
    → get_elem? (set objects ref new) r ≡ some s
    → P s
set_every P objects ref r new s all inside k f = elim (Bool-cases (eqb ref r)) [
  | inl hit ↦
      let at = (eqb_iff ref r).0 hit in
      let self = get_elem?-set_self objects ref new inside in
      let found : new ≡ s = cc in subst P found k
  | inr miss ↦
      all r s (sym (get_elem?-set_ne objects ref r new (λ q. cc (miss, (eqb_iff ref r).1 q))) ∙ f)
]

set-IsWellFormed :
    (server : Server) (ref : ℕ) (old new : Session)
    → get_elem? server.objects ref ≡ some old
    → new.client_id ≡ old.client_id
    → IsKnown server.db.accounts new.uuid
    → IsOrderly new
    → IsWellFormed server
    → IsWellFormed (record server { objects = set server.objects ref new })
set-IsWellFormed server ref old new e same k o w = record {
  pointers = λ id p f. Leads-set server.objects ref old new id p e same (w.pointers id p f);
  known = λ r s f.
      set_every (λ s. IsKnown server.db.accounts s.uuid) server.objects ref r new s w.known
        (get_elem?-lt server.objects ref old e) k f;
  orderly = λ r s f.
      set_every IsOrderly server.objects ref r new s w.orderly
        (get_elem?-lt server.objects ref old e) o f;
  distinct = w.distinct;
  next_fits = w.next_fits;
}

call_session-After :
    {A : Type 0} (p : Pointer) (method : Exec Session A)
    → ((s : Session)
        → ((method s).1.client_id ≡ s.client_id) × (IsOrderly s → IsOrderly (method s).1))
    → (server : Server)
    → IsWellFormed server
      × ((s : Session)
          → IsKnown server.db.accounts s.uuid
          → IsKnown server.db.accounts (method s).1.uuid)
    → After IsWellFormed (λ _. IsWellFormed) (call_session p method server)
unfolding call_session
call_session-After none method same server h = tt
call_session-After (some ref) method same server h =
    elim (Option-cases (get_elem? server.objects ref)) [
      | inl e ↦ rw (e, read_session) tt
      | inr (s, e) ↦
          rw (e, read_session)
            (let after =
                set-IsWellFormed server ref s (method s).1 e (same s).0 (h.1 s (h.0.known ref s e))
                  ((same s).1 (h.0.orderly ref s e)) h.0 in
              After-state IsWellFormed (λ _. IsWellFormed) (method s).0 _ after (λ _. after))
    ]

-- A method of a session that keeps the client id, and leaves a known uuid or none.
pub call_session-Triple :
    {A : Type 0} (p : Pointer) (method : Exec Session A)
    → ((s : Session)
        → ((method s).1.client_id ≡ s.client_id) × (IsOrderly s → IsOrderly (method s).1))
    → Triple IsWellFormed
        (λ server.
          IsWellFormed server
          × ((s : Session)
              → IsKnown server.db.accounts s.uuid
              → IsKnown server.db.accounts (method s).1.uuid))
        (call_session p method)
        (λ _. IsWellFormed)
call_session-Triple p method same = record {
  at = λ server h. call_session-After p method same server h;
}

-- A method of the database that keeps every account's uuid, with a condition on what it returns.
pub call_db-After :
    {A : Type 0} (Q : A → Db → Type 0) (method : Exec Db A) (server : Server)
    → ((u : Text) → IsKnown server.db.accounts u → IsKnown (method server.db).1.accounts u)
    → ((a : A) → (method server.db).0 ≡ ok a → Q a (method server.db).1)
    → IsWellFormed server
    → After IsWellFormed (λ a s. IsWellFormed s × Q a s.db) (call_db method server)
call_db-After {A} Q method server keeps q w = go (method server.db).0 refl
  where
    new : Server
    new = record server { db = (method server.db).1 }

    after : IsWellFormed new
    after = record {
      pointers = w.pointers;
      known = λ r s f. keeps s.uuid (w.known r s f);
      orderly = w.orderly;
      distinct = w.distinct;
      next_fits = w.next_fits;
    }

    go :
        (r : Outcome A)
        → (method server.db).0 ≡ r
        → After IsWellFormed (λ a s. IsWellFormed s × Q a s.db) (r, new)
    go (ok a) e = (after, q a e)
    go (throw x) e = after
    go crash e = tt

-- Erasing an entry of m_sessions.
pub erase-IsWellFormed :
    (id : ℕ) (server : Server)
    → IsWellFormed server
    → IsWellFormed (record server { sessions = erase id server.sessions })
erase-IsWellFormed id server w = record {
  pointers = λ j p f. elim (Bool-cases (eqb id j)) [
    | inl hit ↦
        let gone : find j (erase id server.sessions) ≡ none =
          find-erase id j server.sessions ∙ rw hit in
        cc
    | inr miss ↦
        let kept : find j (erase id server.sessions) ≡ find j server.sessions =
          find-erase id j server.sessions ∙ rw miss in
        w.pointers j p (sym kept ∙ f)
  ];
  known = w.known;
  orderly = w.orderly;
  distinct = erase-Distinct id server.sessions w.distinct;
  next_fits = w.next_fits;
}
