-- ===== src/Server/Saving.antt =====
-- Every event keeps the accounts savable (server/src/Server.cpp, server/src/main.cpp).
use net_pixeld.Prelude.{
  ℕ, ◌≡◌, refl, sym, ap, subst, inl, inr, Bool, true, false, none, some, List, [], ◌∷◌, Text, codes,
  text_eq, nat_eq, if◌then◌else◌, is_empty, get_elem?, Option-cases, Bool-cases,
}
use net_pixeld.Prelude.Outcome.{Outcome, ok, throw, crash}
use net_pixeld.Prelude.Exec.{Exec, continue, ◌>>=◌, pure, reads}
use net_pixeld.Prelude.Umap.{find}
use net_pixeld.Prelude.Int.{pos}
use net_pixeld.Json.{Json, IsLawful}
use net_pixeld.Resource.{Resources}
use net_pixeld.Protocol.{Message}
use net_pixeld.Session.{Session, send}
use net_pixeld.Db.Queries.{find_uuid, get_resources, user_exists}
use net_pixeld.Db.Updates.{update_resources, add_user}
use net_pixeld.Db.Accounts.{update-unknown, add_user-taken}
use net_pixeld.Db.Encodable.{IsEncodable}
use net_pixeld.Db.Totality.{CanSave, update_resources_total, add_user_total}
use net_pixeld.Server.State.{Server, Pointer, schedule_resource_tick}
use net_pixeld.Server.Sessions.{read_session, call_session, call_db, send_to, send_to_client}
use net_pixeld.Server.Tick.{
  next_sequence, resource_message, add_ten, hand_out, give, tick_session, tick_sessions,
  on_resource_tick,
}

module _ (json : Json) where
  -- Whatever the result, the accounts can be saved after it if they could before.
  abbrev pub KeepsSaving : {A : Type 0} → Exec Server A → Type 0
  KeepsSaving m = (s : Server) → CanSave json s.db → CanSave json (m s).1.db

  pub KeepsSaving-bind :
      {A B : Type 0} (m : Exec Server A) (f : A → Exec Server B)
      → KeepsSaving m
      → ((a : A) (s : Server) → (m s).0 ≡ ok a → KeepsSaving (f a))
      → KeepsSaving (m >>= f)
  KeepsSaving-bind {A} {B} m f k l s h = go (m s) refl (k s h)
    where
      go :
          (r : Outcome A × Server)
          → m s ≡ r
          → CanSave json r.1.db
          → CanSave json (continue r f).1.db
      go (ok a, t) e c = l a s (ap (λ r. r.0) e) t c
      go (throw x, t) e c = c
      go (crash, t) e c = c

  db-call_session :
      {A : Type 0} (p : Pointer) (method : Exec Session A) (s : Server)
      → (call_session p method s).1.db ≡ s.db
  unfolding call_session read_session
  db-call_session none method s = refl
  db-call_session (some ref) method s = elim (Option-cases (get_elem? s.objects ref)) [
    | inl e ↦ rw e
    | inr (o, e) ↦ rw e
  ]

  pub KeepsSaving-call_session :
      {A : Type 0} (p : Pointer) (method : Exec Session A) → KeepsSaving (call_session p method)
  KeepsSaving-call_session p method s h = subst (CanSave json) (sym (db-call_session p method s)) h

  pub KeepsSaving-send_to :
      (p : Pointer) (msg : Message json.Value) → KeepsSaving (send_to json p msg)
  unfolding send_to
  KeepsSaving-send_to p msg = KeepsSaving-call_session p (send json msg)

  pub KeepsSaving-send_to_client :
      (id : ℕ) (msg : Message json.Value) → KeepsSaving (send_to_client json id msg)
  unfolding send_to_client
  KeepsSaving-send_to_client id msg s h = elim (Option-cases (find id s.sessions)) [
    | inl e ↦ rw e h
    | inr (p, e) ↦ rw e (KeepsSaving-send_to p msg s h)
  ]

  module _ (lawful : IsLawful json) where
    pub KeepsSaving-update_resources :
        (uuid : Text) (r : Resources) → KeepsSaving (call_db (update_resources json uuid r))
    KeepsSaving-update_resources uuid r s h = elim (Option-cases (find_uuid uuid s.db.accounts)) [
      | inl e ↦ rw (update-unknown json s.db uuid [] r (pos 0) e).0 h
      | inr (acc, e) ↦ (update_resources_total json lawful uuid r s.db acc e h).1
    ]

    pub KeepsSaving-add_user :
        (user pass : Text)
        → IsEncodable json user
        → IsEncodable json pass
        → KeepsSaving (call_db (add_user json user pass))
    KeepsSaving-add_user user pass u p s h = elim (Bool-cases (user_exists user s.db)) [
      | inl taken ↦ rw (add_user-taken json s.db user pass taken) h
      | inr free ↦ (add_user_total json lawful user pass s.db free u p h).1
    ]

    -- the tick
    KeepsSaving-hand_out :
        (id : ℕ) (p : Pointer) (uuid : Text) (pool : Resources)
        → KeepsSaving (hand_out json id p uuid pool)
    unfolding hand_out next_sequence
    KeepsSaving-hand_out id p uuid pool =
        let last =
          λ (seq : ℕ) (_ : Unit {0}). send_to json p (resource_message json seq uuid pool) in
        let update = λ (seq : ℕ). call_db (update_resources json uuid pool) >>= last seq in
        KeepsSaving-bind (next_sequence id (codes "ResourceUpdate")) update (λ s h. h)
          λ seq _ _.
            KeepsSaving-bind (call_db (update_resources json uuid pool)) (last seq)
              (KeepsSaving-update_resources uuid pool)
              λ _ _ _. KeepsSaving-send_to p (resource_message json seq uuid pool)

    KeepsSaving-give_if :
        (b : Bool) (id : ℕ) (p : Pointer) (uuid : Text)
        → KeepsSaving (if b then pure tt else give json id p uuid)
    unfolding give
    KeepsSaving-give_if true id p uuid = λ s h. h
    KeepsSaving-give_if false id p uuid =
        KeepsSaving-bind (reads (λ s. get_resources uuid s.db))
          (λ before. hand_out json id p uuid (add_ten before)) (λ s h. h)
          λ before _ _. KeepsSaving-hand_out id p uuid (add_ten before)

    KeepsSaving-tick_session : (entry : ℕ × Pointer) → KeepsSaving (tick_session json entry)
    unfolding tick_session
    KeepsSaving-tick_session (id, p) =
        KeepsSaving-bind (reads (read_session p))
          (λ o. if is_empty o.uuid then pure tt else give json id p o.uuid) (λ s h. h)
          λ o _ _. KeepsSaving-give_if (is_empty o.uuid) id p o.uuid

    KeepsSaving-tick_sessions :
        (entries : List (ℕ × Pointer)) → KeepsSaving (tick_sessions json entries)
    unfolding tick_sessions
    KeepsSaving-tick_sessions [] = λ s h. h
    KeepsSaving-tick_sessions (entry ∷ rest) =
        KeepsSaving-bind (tick_session json entry) (λ _. tick_sessions json rest)
          (KeepsSaving-tick_session entry) λ _ _ _. KeepsSaving-tick_sessions rest

    pub KeepsSaving-on_resource_tick : (ec : Bool) → KeepsSaving (on_resource_tick json ec)
    unfolding on_resource_tick schedule_resource_tick
    KeepsSaving-on_resource_tick true = λ s h. h
    KeepsSaving-on_resource_tick false = λ s.
        KeepsSaving-bind (tick_sessions json s.sessions) (λ _ t. (ok tt, schedule_resource_tick t))
          (KeepsSaving-tick_sessions s.sessions) (λ _ _ _ t h. h) s
