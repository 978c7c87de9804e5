-- ===== src/Server/Hearing.antt =====
-- A read of a session whose client id is still in m_sessions does not crash
-- (server/src/Session.cpp, server/src/Server.cpp, server/src/main.cpp).
use net_pixeld.Prelude.{
  ℕ, ◌≡◌, ◌≢◌, refl, sym, ap, subst, ◌∙◌, inl, inr, Bool, true, false, Option, none, some, List,
  arith, Text, codes, text_eq, nat_eq, eqb, eqb_iff, get_elem?, set, get_elem?-set_self,
  get_elem?-set_ne, get_elem?-lt, Bool-cases,
}
use net_pixeld.Prelude.Outcome.{Outcome, ok, throw, crash}
use net_pixeld.Prelude.Exec.{Exec, continue, ◌>>=◌, pure}
use net_pixeld.Prelude.Umap.{find}
use net_pixeld.Json.{Json}
use net_pixeld.Protocol.{Message, parse, serialize}
use net_pixeld.Session.{Session, do_read, next_message, take_line, set_uuid, send, post}
use net_pixeld.Disk.{rename}
use net_pixeld.Db.Types.{Db}
use net_pixeld.Db.Queries.{get_user, user_exists, verify_user}
use net_pixeld.Db.File.{save}
use net_pixeld.Db.Updates.{add_user}
use net_pixeld.Server.State.{Server, Handler, login_handler, Pointer}
use net_pixeld.Server.Sessions.{
  read_session, call_session, call_db, get_session, send_to, send_to_client,
}
use net_pixeld.Server.Messages.{
  text_at, login_uuid, known_uuid, log_in, handle_login, on_client_message, handle, login_reply,
}
use net_pixeld.Server.Events.{catch_all, receive}
use net_pixeld.Server.Invariant.{Leads, Leads-set}

abbrev IsThere : List Session → ℕ → Type 0
IsThere objects ref = (o : Session) × (get_elem? objects ref ≡ some o)

IsThere-set :
    (objects : List Session) (ref r : ℕ) (new : Session)
    → IsThere objects ref
    → IsThere (set objects r new) ref
IsThere-set objects ref r new (o, e) = elim (Bool-cases (eqb r ref)) [
  | inl hit ↦
      let at = (eqb_iff r ref).0 hit in
      (
        new,
        ap (get_elem? (set objects r new)) (sym at)
            ∙ get_elem?-set_self objects r new
                (get_elem?-lt objects r o (ap (get_elem? objects) at ∙ e)),
      )
  | inr miss ↦ (o, get_elem?-set_ne objects r ref new (λ q. cc (miss, (eqb_iff r ref).1 q)) ∙ e)
]

-- The session object at `ref` that has read, and the one that m_sessions has for the client id.
module _ (id : ℕ) (p : Pointer) (ref : ℕ) where
  pub record Hears (s : Server) : Type 0 where
    pub entry : find id s.sessions ≡ some p
    pub leads : Leads s.objects id p
    pub reader : IsThere s.objects ref

  -- No crash, and both are still there.
  abbrev pub Safe : {A : Type 0} → Outcome A × Server → Type 0
  Safe r = (r.0 ≢ crash) × Hears r.1

  pub Safe-continue :
      {A B : Type 0} (r : Outcome A × Server) (f : A → Exec Server B)
      → Safe r
      → ((a : A) (s : Server) → Hears s → Safe (f a s))
      → Safe (continue r f)
  Safe-continue (ok a, s) f (n, h) k = k a s h
  Safe-continue (throw x, s) f (n, h) k = (λ e. cc, h)
  Safe-continue (crash, s) f (n, h) k = absurd (n refl)

  pub Safe-call_session :
      {A : Type 0} (r : ℕ) (method : Exec Session A) (s : Server)
      → IsThere s.objects r
      → ((o : Session) → ((method o).0 ≢ crash) × ((method o).1.client_id ≡ o.client_id))
      → Hears s
      → Safe (call_session (some r) method s)
  unfolding call_session read_session
  Safe-call_session r method s (o, e) k h = rw e (
    (k o).0,
    record {
      entry = h.entry;
      leads = Leads-set s.objects r o (method o).1 id p e (k o).1 h.leads;
      reader = IsThere-set s.objects ref r (method o).1 h.reader;
    },
  )

  -- a method of the session that the client id has
  Safe-call_found :
      {A : Type 0} (method : Exec Session A) (s : Server)
      → ((o : Session) → ((method o).0 ≢ crash) × ((method o).1.client_id ≡ o.client_id))
      → Hears s
      → Safe (call_session p method s)
  Safe-call_found method s k h =
      subst (λ q. Safe (call_session q method s)) (sym h.leads.points)
        (Safe-call_session h.leads.ref method s (h.leads.session, h.leads.there) k h)

  module _ (json : Json) where
    send-Safe :
        (msg : Message json.Value) (o : Session)
        → ((send json msg o).0 ≢ crash) × ((send json msg o).1.client_id ≡ o.client_id)
    unfolding send serialize post
    send-Safe msg o = (λ e. ground (arith, e), ground arith)

    Safe-send_to_client :
        (msg : Message json.Value) (s : Server) → Hears s → Safe (send_to_client json id msg s)
    unfolding send_to_client send_to
    Safe-send_to_client msg s h = rw h.entry (Safe-call_found (send json msg) s (send-Safe msg) h)

    Safe-log_in : (uuid : Option Text) (s : Server) → Hears s → Safe (log_in json id uuid s)
    unfolding log_in get_session set_uuid
    Safe-log_in none s h = (λ e. cc, h)
    Safe-log_in (some uuid) s h = rw h.entry (
        Safe-continue (call_session p (λ o. (ok tt, set_uuid uuid o)) s)
          (λ _. send_to_client json id (login_reply json uuid))
          (Safe-call_found (λ o. (ok tt, set_uuid uuid o)) s (λ o. (λ e. cc, refl)) h)
          λ _ t l. Safe-send_to_client (login_reply json uuid) t l)

    Safe-call_db :
        {A : Type 0} (method : Exec Db A) (s : Server)
        → (method s.db).0 ≢ crash
        → Hears s
        → Safe (call_db method s)
    Safe-call_db method s n h = (n, record { entry = h.entry; leads = h.leads; reader = h.reader })

    add_user-no_crash : (user pass : Text) (db : Db) → (add_user json user pass db).0 ≢ crash
    unfolding add_user save rename
    add_user-no_crash user pass db e = ground (arith, e)

    Safe-known_uuid :
        (b : Bool) (user pass : Text) (s : Server) → Hears s → Safe (known_uuid json b user pass s)
    unfolding get_user
    Safe-known_uuid false user pass s h = (λ e. cc, h)
    Safe-known_uuid true user pass s h =
        Safe-continue (get_user user pass s.db, s) (λ uuid. pure (some uuid))
          (λ e. ground (arith, e), h) λ _ t l. (λ e. cc, l)

    Safe-login_uuid : (user pass : Text) (s : Server) → Hears s → Safe (login_uuid json user pass s)
    unfolding login_uuid
    Safe-login_uuid user pass s h = elim (Bool-cases (user_exists user s.db)) [
      | inl e ↦ rw e (Safe-known_uuid (verify_user user pass s.db) user pass s h)
      | inr e ↦ rw e (
          Safe-continue (call_db (add_user json user pass) s) (λ uuid. pure (some uuid))
            (Safe-call_db (add_user json user pass) s (add_user-no_crash user pass s.db) h)
            λ _ t l. (λ e. cc, l))
    ]

    Safe-text_at :
        (v : json.Value) (key : Text) (s : Server) → Hears s → Safe (text_at json v key s)
    Safe-text_at v key s h = (λ e. ground (arith, e), h)

    Safe-handle :
        (handler : Option Handler) (msg : Message json.Value) (s : Server)
        → Hears s
        → Safe (handle json handler id msg s)
    unfolding handle_login
    Safe-handle none msg s h = (λ e. cc, h)
    Safe-handle (some login_handler) msg s h =
        let ended = λ (user pass : Text). login_uuid json user pass >>= log_in json id in
        Safe-continue (text_at json msg.payload (codes "id") s)
          (λ user. text_at json msg.payload (codes "password") >>= ended user)
          (Safe-text_at msg.payload (codes "id") s h)
          λ user t l.
            Safe-continue (text_at json msg.payload (codes "password") t) (ended user)
              (Safe-text_at msg.payload (codes "password") t l)
              λ pass u m.
                Safe-continue (login_uuid json user pass u) (log_in json id)
                  (Safe-login_uuid user pass u m) Safe-log_in

    Safe-on_client_message :
        (msg : Message json.Value) (s : Server) → Hears s → Safe (on_client_message json id msg s)
    unfolding on_client_message
    Safe-on_client_message msg s h = Safe-handle (find msg.type s.handlers) msg s h

    Safe-catch_all : (m : Exec Server (Unit {0})) (s : Server) → Safe (m s) → Safe (catch_all m s)
    Safe-catch_all m s (n, h) = go (m s) n h
      where
        go :
            (r : Outcome (Unit {0}) × Server)
            → r.0 ≢ crash
            → Hears r.1
            → Safe (catch_all (λ _. r) s)
        go (ok _, t) n h = (λ e. cc, h)
        go (throw x, t) n h = (λ e. cc, h)
        go (crash, t) n h = absurd (n refl)

    next_message-Safe :
        (o : Session)
        → ((next_message json o).0 ≢ crash) × ((next_message json o).1.client_id ≡ o.client_id)
    unfolding next_message take_line parse
    next_message-Safe o = (λ e. ground (arith, e), refl)

    pub Safe-receive : (s : Server) → Hears s → Safe (receive json (some ref) id s)
    unfolding do_read
    Safe-receive s h =
        let reading = call_session (some ref) (next_message json) >>= on_client_message json id in
        let again : Exec Session (Unit {0}) = λ o. (ok tt, do_read o) in
        Safe-continue (catch_all reading s) (λ _. call_session (some ref) again)
          (Safe-catch_all reading s (
            Safe-continue (call_session (some ref) (next_message json) s)
              (on_client_message json id)
              (Safe-call_session ref (next_message json) s h.reader next_message-Safe h)
              Safe-on_client_message))
          λ _ t l. Safe-call_session ref again t l.reader (λ o. (λ e. cc, refl)) l
