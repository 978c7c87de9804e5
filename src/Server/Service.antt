-- ===== src/Server/Service.antt =====
-- A server that can save its accounts serves on: every event keeps it able to, and so the timer never
-- throws (server/src/Server.cpp, server/src/main.cpp).
use net_pixeld.Prelude.{
  ℕ, ◌≡◌, ◌≢◌, refl, subst, inl, inr, Bool, true, false, some, List, [], ◌∷◌, arith, Text, text_eq,
  nat_eq, if◌then◌else◌, Bool-cases,
}
use net_pixeld.Prelude.Outcome.{Outcome, ok, throw, crash}
use net_pixeld.Prelude.Exec.{Exec, ◌>>=◌, modify}
use net_pixeld.Json.{Json, IsLawful}
use net_pixeld.Session.{Session, do_read, next_message, start, run_posted, on_write, arrive}
use net_pixeld.Db.Totality.{CanSave}
use net_pixeld.Server.State.{Server, Pointer, do_accept, new_server, schedule_resource_tick}
use net_pixeld.Server.Sessions.{call_session, send_to, on_client_disconnect}
use net_pixeld.Server.Messages.{register_handler, on_client_message}
use net_pixeld.Server.Tick.{on_resource_tick}
use net_pixeld.Server.Events.{
  Event, accepted, fired, turned, wrote, arrived, completed, ready, handler, step, run, boot,
  catch_all, receive, on_read, on_accept, add_session, greet, handshake, on_written, disconnect_if,
}
use net_pixeld.Disk.{Disk}
use net_pixeld.Db.Types.{Db}
use net_pixeld.Db.Uuid.{Generator, InRange}
use net_pixeld.Db.Updates.{construct}
use net_pixeld.Db.Loaded.{construct-CanSave}
use net_pixeld.Server.Stepping.{run-IsWellFormed, boot-IsWellFormed}
use net_pixeld.Server.Returning.{CanServe}
use net_pixeld.Server.Saving.{
  KeepsSaving, KeepsSaving-bind, KeepsSaving-call_session, KeepsSaving-send_to,
  KeepsSaving-on_resource_tick,
}
use net_pixeld.Server.Listening.{KeepsSaving-on_client_message, next_message-payload}

module _ (json : Json) (lawful : IsLawful json) where
  KeepsSaving-catch_all :
      (m : Exec Server (Unit {0})) → KeepsSaving json m → KeepsSaving json (catch_all m)
  KeepsSaving-catch_all m k = k

  KeepsSaving-receive : (p : Pointer) (id : ℕ) → KeepsSaving json (receive json p id)
  KeepsSaving-receive p id =
      let reading = call_session p (next_message json) >>= on_client_message json id in
      KeepsSaving-bind json (catch_all reading) (λ _. call_session p (λ s. (ok tt, do_read s)))
        (KeepsSaving-catch_all reading (
          KeepsSaving-bind json (call_session p (next_message json)) (on_client_message json id)
            (KeepsSaving-call_session json p (next_message json))
            λ msg s got.
              KeepsSaving-on_client_message json lawful id msg
                (next_message-payload json lawful p msg s got)))
        λ _ _ _. KeepsSaving-call_session json p (λ s. (ok tt, do_read s))

  KeepsSaving-disconnect : (id : ℕ) → KeepsSaving json (modify (on_client_disconnect id))
  unfolding on_client_disconnect
  KeepsSaving-disconnect id = λ s h. h

  KeepsSaving-read_if :
      (ec : Bool) (p : Pointer) (id : ℕ)
      → KeepsSaving json (if ec then modify (on_client_disconnect id) else receive json p id)
  KeepsSaving-read_if true p id = KeepsSaving-disconnect id
  KeepsSaving-read_if false p id = KeepsSaving-receive p id

  KeepsSaving-on_read : (p : Pointer) (ec : Bool) → KeepsSaving json (on_read json p ec)
  unfolding on_read
  KeepsSaving-on_read p ec =
      let noted : Exec Session ℕ = λ s. (ok s.client_id, record s { reading = false }) in
      KeepsSaving-bind json (call_session p noted)
        (λ id. if ec then modify (on_client_disconnect id) else receive json p id)
        (KeepsSaving-call_session json p noted) λ id _ _. KeepsSaving-read_if ec p id

  KeepsSaving-disconnect_if : (b : Bool) (id : ℕ) → KeepsSaving json (disconnect_if b id)
  KeepsSaving-disconnect_if true id = KeepsSaving-disconnect id
  KeepsSaving-disconnect_if false id = λ s h. h

  KeepsSaving-on_written : (p : Pointer) (ec : Bool) → KeepsSaving json (on_written p ec)
  unfolding on_written
  KeepsSaving-on_written p ec =
      let owner : Exec Session ℕ = λ s. (ok s.client_id, s) in
      let written =
        λ (id : ℕ). call_session p (on_write ec) >>= λ failed. disconnect_if failed id in
      KeepsSaving-bind json (call_session p owner) written (KeepsSaving-call_session json p owner)
        λ id _ _.
          KeepsSaving-bind json (call_session p (on_write ec)) (λ failed. disconnect_if failed id)
            (KeepsSaving-call_session json p (on_write ec))
            λ failed _ _. KeepsSaving-disconnect_if failed id

  KeepsSaving-greet : (entry : ℕ × Pointer) → KeepsSaving json (greet json entry)
  unfolding do_accept
  KeepsSaving-greet (id, p) =
      let begin : Exec Server (Unit {0}) = call_session p (λ s. (ok tt, start s)) in
      KeepsSaving-bind json (send_to json p (handshake json id))
        (λ _. begin >>= λ _. modify do_accept) (KeepsSaving-send_to json p (handshake json id))
        λ _ _ _.
          KeepsSaving-bind json begin (λ _. modify do_accept)
            (KeepsSaving-call_session json p (λ s. (ok tt, start s))) λ _ _ _ s h. h

  KeepsSaving-on_accept : (ec : Bool) → KeepsSaving json (on_accept json ec)
  unfolding on_accept add_session do_accept
  KeepsSaving-on_accept true = λ s h. h
  KeepsSaving-on_accept false =
      KeepsSaving-bind json add_session (greet json) (λ s h. h) λ entry _ _. KeepsSaving-greet entry

  KeepsSaving-handler : (event : Event) → KeepsSaving json (handler json event)
  KeepsSaving-handler (accepted ec) = KeepsSaving-on_accept ec
  KeepsSaving-handler (fired ec) =
      KeepsSaving-bind json (modify (λ server. record server { timer_set = false }))
        (λ _. on_resource_tick json ec) (λ s h. h)
        λ _ _ _. KeepsSaving-on_resource_tick json lawful ec
  KeepsSaving-handler (turned ref) = KeepsSaving-call_session json (some ref) run_posted
  KeepsSaving-handler (wrote ref ec) = KeepsSaving-on_written (some ref) ec
  KeepsSaving-handler (arrived ref bytes) =
      KeepsSaving-call_session json (some ref) (λ s. (ok tt, arrive bytes s))
  KeepsSaving-handler (completed ref ec) = KeepsSaving-on_read (some ref) ec

  pub KeepsSaving-step : (event : Event) → KeepsSaving json (step json event)
  unfolding step
  KeepsSaving-step event s h = elim (Bool-cases (ready event s)) [
    | inl e ↦ rw e (KeepsSaving-handler event s h)
    | inr e ↦ rw e h
  ]

  -- Whatever happens, the accounts can be saved after it if they could before.
  pub run-CanSave : (events : List Event) → KeepsSaving json (run json events)
  unfolding run
  run-CanSave [] = λ s h. h
  run-CanSave (event ∷ rest) =
      KeepsSaving-bind json (step json event) (λ _. run json rest) (KeepsSaving-step event)
        λ _ _ _. run-CanSave rest

  -- A server that main starts on a disk that opens and renames files can save its accounts.
  boot-CanSave :
      (filepath : Text) (disk : Disk) (generator : Generator) (server : Server)
      → disk.can_open ≡ true
      → disk.can_rename ≡ true
      → InRange generator
      → boot json filepath disk generator ≡ ok server
      → CanSave json server.db
  unfolding boot new_server register_handler do_accept schedule_resource_tick
  boot-CanSave filepath disk generator server opens renames draws e =
      go (construct json filepath disk generator) refl
    where
      go : (r : Outcome Db) → construct json filepath disk generator ≡ r → CanSave json server.db
      go (ok db) f =
          let same : db ≡ server.db = ground (arith, f, e) in
          subst (CanSave json) same
            (construct-CanSave json lawful filepath disk generator db opens renames draws f)
      go (throw x) f = ground (arith, f, e)
      go crash f = ground (arith, f, e)

  pub boot-CanServe :
      (filepath : Text) (disk : Disk) (generator : Generator) (server : Server)
      → disk.can_open ≡ true
      → disk.can_rename ≡ true
      → InRange generator
      → boot json filepath disk generator ≡ ok server
      → CanServe json server
  boot-CanServe filepath disk generator server opens renames draws e = record {
    formed = boot-IsWellFormed json filepath disk generator server e;
    can_save = boot-CanSave filepath disk generator server opens renames draws e;
  }

  -- With a JSON library as documented and 64-bit draws: from the start of the program on a disk that
  -- opens and renames files, after any list of events during which the program has not crashed, the
  -- server is well-formed, files can be opened and renamed, and every text of the accounts is valid
  -- UTF-8.
  pub run-CanServe :
      (filepath : Text) (disk : Disk) (generator : Generator) (server : Server)
      (events : List Event)
      → disk.can_open ≡ true
      → disk.can_rename ≡ true
      → InRange generator
      → boot json filepath disk generator ≡ ok server
      → (run json events server).0 ≢ crash
      → CanServe json (run json events server).1
  run-CanServe filepath disk generator server events opens renames draws e n = record {
    formed =
        run-IsWellFormed json events server
          (boot-IsWellFormed json filepath disk generator server e) n;
    can_save =
        run-CanSave events server
          (boot-CanSave filepath disk generator server opens renames draws e);
  }
