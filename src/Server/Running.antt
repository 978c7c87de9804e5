-- ===== src/Server/Running.antt =====
-- Every handler keeps the server well-formed, unless it crashes (server/src/Server.cpp,
-- server/src/Session.cpp, server/src/main.cpp).
use net_pixeld.Prelude.{
  ℕ, ◌≡◌, refl, sym, subst, inl, inr, Bool, true, false, Option, none, some, arith, Text, codes,
  text_eq, nat_eq, Option-cases, Bool-cases,
}
use net_pixeld.Prelude.Outcome.{Outcome, ok, throw, crash}
use net_pixeld.Prelude.Exec.{Exec, continue, ◌>>=◌, pure, reads}
use net_pixeld.Prelude.Triple.{
  After, Triple, After-state, After-continue, After-weaken, Triple-bind,
}
use net_pixeld.Prelude.Umap.{Umap, find}
use net_pixeld.Json.{Json}
use net_pixeld.Protocol.{Message}
use net_pixeld.Session.{Session, send, post, set_uuid}
use net_pixeld.Session.Writes.{IsOrderly, IsOrderly-same}
use net_pixeld.Db.Types.{Account}
use net_pixeld.Db.Queries.{get_user, user_exists}
use net_pixeld.Db.Updates.{add_user, update_resources}
use net_pixeld.Db.Known.{
  Holds, get_user-Holds, add_user-Holds, add_user-returns, update_resources-Holds,
}
use net_pixeld.Server.State.{Server, Handler, login_handler, Pointer}
use net_pixeld.Server.Sessions.{
  read_session, call_session, call_db, get_session, send_to, send_to_client,
}
use net_pixeld.Server.Messages.{
  text_at, login_uuid, known_uuid, new_uuid, log_in, handle_login, on_client_message, handle,
  login_reply,
}
use net_pixeld.Resource.{Resources}
use net_pixeld.Server.Tick.{next_sequence}
use net_pixeld.Server.Invariant.{IsWellFormed, IsKnown, call_session-Triple, call_db-After}

abbrev pub Keeps : {A : Type 0} → Exec Server A → Type 0
Keeps m = Triple IsWellFormed IsWellFormed m (λ _. IsWellFormed)

-- A method of a session that leaves its client id and its uuid alone.
pub Keeps-call_session :
    {A : Type 0} (p : Pointer) (method : Exec Session A)
    → ((s : Session)
        → ((method s).1.client_id ≡ s.client_id)
          × ((method s).1.uuid ≡ s.uuid)
          × (IsOrderly s → IsOrderly (method s).1))
    → Keeps (call_session p method)
Keeps-call_session p method same = record {
  at = λ server w.
      (call_session-Triple p method (λ s. ((same s).0, (same s).2))).at server
        (w, λ s k. subst (IsKnown server.db.accounts) (sym (same s).1) k);
}

pub Keeps-bind :
    {A B : Type 0} (m : Exec Server A) (f : A → Exec Server B)
    → Keeps m
    → ((a : A) → Keeps (f a))
    → Keeps (m >>= f)
Keeps-bind m f = Triple-bind IsWellFormed IsWellFormed (λ _. IsWellFormed) (λ _. IsWellFormed) m f

pub Keeps-reads : {A : Type 0} (f : Server → Outcome A) → Keeps (reads f)
Keeps-reads f = record {
  at = λ server w. After-state IsWellFormed (λ _. IsWellFormed) (f server) server w (λ _. w);
}

IsKnown-mono :
    (before after : Umap Text Account) (u : Text)
    → (Holds before u → Holds after u)
    → IsKnown before u
    → IsKnown after u
IsKnown-mono before after u h (inl e) = inl e
IsKnown-mono before after u h (inr k) = inr (h k)

pub Keeps-next_sequence : (id : ℕ) (type : Text) → Keeps (next_sequence id type)
unfolding next_sequence
Keeps-next_sequence id type = record {
  at = λ server w. record {
    pointers = w.pointers;
    known = w.known;
    orderly = w.orderly;
    distinct = w.distinct;
    next_fits = w.next_fits;
  };
}

module _ (json : Json) where
  pub Keeps-update_resources :
      (uuid : Text) (r : Resources) → Keeps (call_db (update_resources json uuid r))
  Keeps-update_resources uuid r = record {
    at = λ server w.
        After-weaken IsWellFormed (λ _ s. IsWellFormed s × Unit {0}) (λ _. IsWellFormed)
          (call_db (update_resources json uuid r) server) (λ _ s h. h.0)
          (call_db-After (λ _ _. Unit {0}) (update_resources json uuid r) server
            (λ u.
              IsKnown-mono server.db.accounts _ u (update_resources-Holds json server.db uuid u r))
            (λ _ _. tt) w);
  }

  pub Keeps-send_to : (p : Pointer) (msg : Message json.Value) → Keeps (send_to json p msg)
  unfolding send_to send post
  Keeps-send_to p msg = Keeps-call_session p (send json msg) (λ s.
      (ground arith, ground arith, IsOrderly-same s _ (ground arith) (ground arith) (ground arith)))

  Keeps-send_to_client : (id : ℕ) (msg : Message json.Value) → Keeps (send_to_client json id msg)
  unfolding send_to_client
  Keeps-send_to_client id msg = record {
    at = λ server w. elim (Option-cases (find id server.sessions)) [
      | inl e ↦ rw (e, send_to_client) w
      | inr (p, e) ↦ rw (e, send_to_client) ((Keeps-send_to p msg).at server w)
    ];
  }

  -- After the login the uuid, if any, is that of an account.
  abbrev Found : Option Text → Server → Type 0
  Found none s = IsWellFormed s
  Found (some uuid) s = IsWellFormed s × Holds s.db.accounts uuid

  known-Found :
      (b : Bool) (user pass : Text) (server : Server)
      → IsWellFormed server
      → After IsWellFormed Found (known_uuid json b user pass server)
  known-Found false user pass server w = w
  known-Found true user pass server w = go (get_user user pass server.db) refl
    where
      go :
          (r : Outcome Text)
          → get_user user pass server.db ≡ r
          → After IsWellFormed Found (continue (r, server) (λ uuid. pure (some uuid)))
      go (ok uuid) e = (w, get_user-Holds server.db user pass uuid e)
      go (throw x) e = w
      go crash e = tt

  new-Found :
      (user pass : Text) (server : Server)
      → IsWellFormed server
      → After IsWellFormed Found (new_uuid json user pass server)
  new-Found user pass server w =
      After-continue IsWellFormed (λ uuid s. IsWellFormed s × Holds s.db.accounts uuid) Found
        (call_db (add_user json user pass) server) (λ uuid. pure (some uuid))
        (call_db-After (λ uuid db. Holds db.accounts uuid) (add_user json user pass) server
          (λ u. IsKnown-mono server.db.accounts _ u (add_user-Holds json server.db user pass u))
          (λ uuid. add_user-returns json server.db user pass uuid) w)
        (λ uuid. record { at = λ s h. h })

  login_uuid-Found :
      (user pass : Text) → Triple IsWellFormed IsWellFormed (login_uuid json user pass) Found
  unfolding login_uuid
  login_uuid-Found user pass = record {
    at = λ server w. elim (Bool-cases (user_exists user server.db)) [
      | inl e ↦ rw e (known-Found _ user pass server w)
      | inr e ↦ rw e (new-Found user pass server w)
    ];
  }

  log_in-After :
      (id : ℕ) (uuid : Option Text) (server : Server)
      → Found uuid server
      → After IsWellFormed (λ _. IsWellFormed) (log_in json id uuid server)
  unfolding log_in get_session set_uuid
  log_in-After id none server w = w
  log_in-After id (some uuid) server (w, held) = elim (Option-cases (find id server.sessions)) [
    | inl e ↦ rw (e, get_session) (unfold call_session read_session in tt)
    | inr (p, e) ↦
        rw (e, get_session)
          (After-continue IsWellFormed (λ _. IsWellFormed) (λ _. IsWellFormed)
            (call_session p (λ s. (ok tt, set_uuid uuid s)) server)
            (λ _. send_to_client json id (login_reply json uuid))
            ((call_session-Triple p (λ s. (ok tt, set_uuid uuid s))
                (λ s. (refl, IsOrderly-same s (set_uuid uuid s) refl refl refl))).at
              server (w, λ s k. inr held))
            (λ _. Keeps-send_to_client id (login_reply json uuid)))
  ]

  pub Keeps-handle_login : (id : ℕ) (msg : Message json.Value) → Keeps (handle_login json id msg)
  unfolding handle_login
  Keeps-handle_login id msg =
      let rest = λ (user pass : Text). login_uuid json user pass >>= log_in json id in
      let ended = λ (user pass : Text).
        Triple-bind IsWellFormed IsWellFormed Found (λ _. IsWellFormed) (login_uuid json user pass)
          (log_in json id) (login_uuid-Found user pass)
          (λ uuid. record { at = log_in-After id uuid }) in
      Keeps-bind (text_at json msg.payload (codes "id"))
        (λ user. text_at json msg.payload (codes "password") >>= rest user) (Keeps-reads _)
        λ user.
          Keeps-bind (text_at json msg.payload (codes "password")) (rest user) (Keeps-reads _)
            λ pass. ended user pass

  pub Keeps-on_client_message :
      (id : ℕ) (msg : Message json.Value) → Keeps (on_client_message json id msg)
  unfolding on_client_message
  Keeps-on_client_message id msg = record {
    at = λ server. go (find msg.type server.handlers) server;
  }
    where
      go :
          (h : Option Handler) (server : Server)
          → IsWellFormed server
          → After IsWellFormed (λ _. IsWellFormed) (handle json h id msg server)
      go none server w = w
      go (some login_handler) server w = (Keeps-handle_login id msg).at server w
