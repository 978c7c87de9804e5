-- ===== src/Server/Returning.antt =====
-- When a tick returns: what the server needs to serve its sessions (server/src/Server.cpp).
use net_pixeld.Prelude.{
  ℕ, ◌≡◌, refl, sym, ap, ◌∙◌, subst, inl, inr, none, some, List, [], ◌∷◌, ◌++◌, All, arith, Text,
  codes, text_eq, nat_eq, is_empty, Bool-cases,
}
use net_pixeld.Prelude.Outcome.{Outcome, ok, throw, crash}
use net_pixeld.Prelude.Exec.{continue, continue-ok}
use net_pixeld.Prelude.Triple.{After}
use net_pixeld.Prelude.Umap.{Umap, find}
use net_pixeld.Json.{Json, IsLawful}
use net_pixeld.Resource.{Resources}
use net_pixeld.Protocol.{Message, serialize, members}
use net_pixeld.Session.{send}
use net_pixeld.Db.Types.{Account, Db}
use net_pixeld.Db.Queries.{find_uuid, get_resources}
use net_pixeld.Db.Updates.{update_resources}
use net_pixeld.Db.Encodable.{IsEncodable, find_uuid-IsEncodable}
use net_pixeld.Db.Totality.{CanSave, update_resources_total}
use net_pixeld.Server.State.{Server, Pointer}
use net_pixeld.Server.Sessions.{read_session, call_session, send_to}
use net_pixeld.Server.Tick.{
  resource_message, add_ten, next_sequence, hand_out, give, tick_session, tick_sessions,
}
use net_pixeld.Server.Invariant.{Leads, IsWellFormed}
use net_pixeld.Server.Ticking.{Keeps-hand_out}
use net_pixeld.Server.Ticks.{db-hand_out}

pub After-ok :
    {S A : Type 0} (Inv : S → Type 0) (r : Outcome A × S) (a : A)
    → r.0 ≡ ok a
    → After Inv (λ _. Inv) r
    → Inv r.1
After-ok Inv (ok b, s) a e h = h
After-ok Inv (throw x, s) a e h = cc
After-ok Inv (crash, s) a e h = cc

Leads-read_session :
    (id : ℕ) (p : Pointer) (s : Server) (l : Leads s.objects id p) → read_session p s ≡ ok l.session
unfolding read_session
Leads-read_session id p s l = rw (l.points, l.there)

module _ (json : Json) where
  -- A well-formed server whose accounts can be saved.
  pub record CanServe (server : Server) : Type 0 where
    pub formed : IsWellFormed server
    pub can_save : CanSave json server.db

  -- m_sessions is as it was
  pub record Serves (sessions : Umap ℕ Pointer) (server : Server) : Type 0 where
    pub serving : CanServe server
    pub same : server.sessions ≡ sessions

  sessions-send_to :
      (p : Pointer) (msg : Message json.Value) (s : Server)
      → (send_to json p msg s).1.sessions ≡ s.sessions
  unfolding send_to call_session read_session send
  sessions-send_to none msg s = refl
  sessions-send_to (some ref) msg s = ground arith

  sessions-sent :
      (p : Pointer) (msg : Message json.Value) (r : Outcome (Unit {0}) × Db) (s : Server)
      → (continue (r.0, record s { db = r.1 }) (λ _. send_to json p msg)).1.sessions ≡ s.sessions
  sessions-sent p msg (ok _, db) s = sessions-send_to p msg (record s { db = db })
  sessions-sent p msg (throw x, db) s = refl
  sessions-sent p msg (crash, db) s = refl

  sessions-hand_out :
      (id : ℕ) (p : Pointer) (uuid : Text) (pool : Resources) (s : Server)
      → (hand_out json id p uuid pool s).1.sessions ≡ s.sessions
  unfolding hand_out next_sequence
  sessions-hand_out id p uuid pool s =
      sessions-sent p _ (update_resources json uuid pool s.db)
        (next_sequence id (codes "ResourceUpdate") s).1

  module _ (lawful : IsLawful json) where
    pub serialize_total :
        (msg : Message json.Value)
        → json.IsUtf8 (json.object (members json msg))
        → (wire : Text) × (serialize json msg ≡ ok wire)
    unfolding serialize
    serialize_total msg u = let (text, e) = lawful.dump_total _ u in (text ++ 10 ∷ [], rw e)

    pub resource_message-IsUtf8 :
        (seq : ℕ) (uuid : Text) (pool : Resources)
        → IsEncodable json uuid
        → json.IsUtf8 (json.object (members json (resource_message json seq uuid pool)))
    resource_message-IsUtf8 seq uuid pool u =
        let ascii = lawful.IsUtf8-string in
        let number = lawful.IsUtf8-number in
        lawful.IsUtf8-object _ (
          (ascii (codes "type") (ground arith), ascii (codes "ResourceUpdate") (ground arith)),
          (
            (ascii (codes "sequence") (ground arith), number seq),
            (
              (
                ascii (codes "payload") (ground arith),
                lawful.IsUtf8-object _ (
                  (ascii (codes "uuid") (ground arith), u),
                  (
                    (ascii (codes "wood") (ground arith), number pool.wood),
                    (
                      (ascii (codes "food") (ground arith), number pool.food),
                      ((ascii (codes "iron") (ground arith), number pool.iron), tt),
                    ),
                  ),
                ),
              ),
              tt,
            ),
          ),
        )

    pub send_to_total :
        (id : ℕ) (p : Pointer) (msg : Message json.Value) (server : Server)
        → Leads server.objects id p
        → json.IsUtf8 (json.object (members json msg))
        → (send_to json p msg server).0 ≡ ok tt
    unfolding send_to call_session read_session send
    send_to_total id p msg server l u =
        let (wire, e) = serialize_total msg u in rw (l.points, l.there, e)

    -- What runs to its end, and after which the server can still serve its sessions.
    abbrev Runs : Umap ℕ Pointer → Outcome (Unit {0}) × Server → Type 0
    Runs sessions r = (r.0 ≡ ok tt) × Serves sessions r.1

    sent_total :
        (id : ℕ) (p : Pointer) (msg : Message json.Value) (r : Outcome (Unit {0}) × Db) (s : Server)
        → r.0 ≡ ok tt
        → Leads s.objects id p
        → json.IsUtf8 (json.object (members json msg))
        → (continue (r.0, record s { db = r.1 }) (λ _. send_to json p msg)).0 ≡ ok tt
    sent_total id p msg (ok _, db) s e l u = send_to_total id p msg (record s { db = db }) l u
    sent_total id p msg (throw x, db) s e l u = cc
    sent_total id p msg (crash, db) s e l u = cc

    hand_out_total :
        (sessions : Umap ℕ Pointer) (id : ℕ) (p : Pointer) (uuid : Text) (pool : Resources)
        (acc : Account) (s : Server)
        → find_uuid uuid s.db.accounts ≡ some acc
        → Leads s.objects id p
        → Serves sessions s
        → Runs sessions (hand_out json id p uuid pool s)
    unfolding hand_out next_sequence
    hand_out_total sessions id p uuid pool acc s e l h = (returns, after)
      where
        saved :
            ((update_resources json uuid pool s.db).0 ≡ ok tt)
            × CanSave json (update_resources json uuid pool s.db).1
        saved = update_resources_total json lawful uuid pool s.db acc e h.serving.can_save

        returns : (hand_out json id p uuid pool s).0 ≡ ok tt
        returns =
            sent_total id p _ (update_resources json uuid pool s.db)
              (next_sequence id (codes "ResourceUpdate") s).1 saved.0 l
              (resource_message-IsUtf8 _ uuid pool
                (find_uuid-IsEncodable json uuid s.db.accounts acc e h.serving.can_save.storable))

        after : Serves sessions (hand_out json id p uuid pool s).1
        after = record {
          serving = record {
            formed =
                After-ok IsWellFormed (hand_out json id p uuid pool s) tt returns
                  ((Keeps-hand_out json id p uuid pool).at s h.serving.formed);
            can_save = subst (CanSave json) (sym (db-hand_out json id p uuid pool s)) saved.1;
          };
          same = sessions-hand_out id p uuid pool s ∙ h.same;
        }

    give_total :
        (sessions : Umap ℕ Pointer) (id : ℕ) (p : Pointer) (uuid : Text) (acc : Account)
        (s : Server)
        → find_uuid uuid s.db.accounts ≡ some acc
        → Leads s.objects id p
        → Serves sessions s
        → Runs sessions (give json id p uuid s)
    unfolding give get_resources
    give_total sessions id p uuid acc s e l h =
        rw e (hand_out_total sessions id p uuid (add_ten acc.resources) acc s e l h)

    tick_session_total :
        (sessions : Umap ℕ Pointer) (id : ℕ) (p : Pointer) (s : Server)
        → find id sessions ≡ some p
        → Serves sessions s
        → Runs sessions (tick_session json (id, p) s)
    unfolding tick_session
    tick_session_total sessions id p s f h =
        let l = h.serving.formed.pointers id p (ap (find id) h.same ∙ f) in
        let read = Leads-read_session id p s l in
        elim (h.serving.formed.known l.ref l.session l.there) [
          | inl out ↦ rw (read, out) (refl, h)
          | inr (acc, e) ↦ elim (Bool-cases (is_empty l.session.uuid)) [
            | inl empty ↦ rw (read, empty) (refl, h)
            | inr logged ↦ rw (read, logged) (give_total sessions id p l.session.uuid acc s e l h)
          ]
        ]

    pub tick_sessions_total :
        (sessions : Umap ℕ Pointer) (entries : List (ℕ × Pointer)) (s : Server)
        → All (λ (id, p). find id sessions ≡ some p) entries
        → Serves sessions s
        → Runs sessions (tick_sessions json entries s)
    unfolding tick_sessions
    tick_sessions_total sessions [] s f h = (refl, h)
    tick_sessions_total sessions ((id, p) ∷ rest) s f h =
        let (returned, after) = tick_session_total sessions id p s f.0 h in
        rw (continue-ok (tick_session json (id, p) s) (λ _. tick_sessions json rest) tt returned)
          (tick_sessions_total sessions rest _ f.1 after)
