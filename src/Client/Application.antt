-- ===== src/Client/Application.antt =====
-- The client's frame (client/src/app/Application.cpp): the messages are polled and filtered by their
-- sequence numbers, and given to the current scene.
pub mod Numbering
pub mod Frames
pub mod InStep
pub mod Arrival
pub mod Backlog
pub mod Turn
use net_pixeld.Prelude.{
  ℕ, zero, suc, ◌+◌, ◌%◌, ◌^◌, Bool, true, false, not, Option, none, some, List, [], ◌∷◌, ◌++◌,
  ◌==◌, Text, codes, text_eq, leb, eqb, is_empty, if◌then◌else◌, length,
}
use net_pixeld.Prelude.Outcome.{Outcome, ok, throw}
use net_pixeld.Prelude.Exec.{Exec, ◌>>=◌, ◌>>◌, continue, lift, modify, pure}
use net_pixeld.Prelude.Umap.{Umap, find, assign}
use net_pixeld.Json.{Json}
use net_pixeld.Protocol.{Message, msg_assign_client_id}
use net_pixeld.Client.Raylib.{
  Raylib, Screen, Call, begin_drawing, end_drawing, clear_background, raywhite,
}
use net_pixeld.Client.Network.{NetworkClient, new_client, connect, shutdown, poll_message}
use net_pixeld.Client.Scenes.Drawing.{draw_manager}
use net_pixeld.Client.Context.{Player, GameContext, new_context}
use net_pixeld.Client.Scenes.{
  SceneId, login, game, Scene, SceneManager, new_scene_manager, register_scene, change_scene, Frame,
}
use net_pixeld.Client.Scenes.Handling.{update_scene, handle_message, on_net, member}

abbrev pub or_zero : Option ℕ → ℕ
or_zero none = 0
or_zero (some n) = n

-- m_ctx.lastSeqByType[type], a `uint32_t`
abbrev pub last_seq : Text → Umap Text ℕ → ℕ
last_seq type seqs = or_zero (find type seqs)

-- Whether a message is the next of its type, and the numbers after it; the lookup makes an entry.
unfoldable pub in_order : Text → ℕ → Umap Text ℕ → Bool × Umap Text ℕ
in_order type sequence seqs =
    let last = last_seq type seqs in
    let looked_up = assign type last seqs in
    if leb sequence last
    then (false, looked_up)
    else if not (eqb sequence ((last + 1) % 2 ^ 32))
    then (false, looked_up)
    else (true, assign type sequence seqs)

module _ (json : Json) where
  open json use {Value, get_uint}

  abbrev assign_client_id : Message Value → Exec (GameContext Value) (Unit {0})
  assign_client_id msg = do
    id ← member json (get_uint 8) msg (codes "clientId")
    modify (λ ctx. record ctx { client_id = id })

  abbrev to_scene : {F : Type 0} → Option (Scene F) → Message Value → Exec (GameContext Value) Bool
  to_scene none msg = pure false
  to_scene (some scene) msg = handle_message json scene msg

  abbrev dispatch :
      {F : Type 0} → Option (Scene F) → Message Value → Exec (GameContext Value) (Unit {0})
  dispatch scene msg =
      if msg.type == msg_assign_client_id
      then assign_client_id msg
      else (do to_scene scene msg; pure tt)

  -- the body of the loop for one message
  unfoldable pub process :
      {F : Type 0} → Option (Scene F) → Message Value → Exec (GameContext Value) (Unit {0})
  process scene msg ctx =
      let (next, seqs) = in_order msg.type msg.sequence ctx.last_seq_by_type in
      let seen = record ctx { last_seq_by_type = seqs } in
      if next then dispatch scene msg seen else (ok tt, seen)

  -- The loop over `pollMessage`, for at most `fuel` messages.
  unfoldable pub drain : {F : Type 0} → ℕ → Option (Scene F) → Exec (GameContext Value) (Unit {0})
  drain zero scene ctx = (ok tt, ctx)
  drain (suc fuel) scene ctx =
      let (polled, net) = poll_message ctx.net in
      elim polled [
        | none ↦ (ok tt, record ctx { net = net })
        | some msg ↦ continue (process scene msg (record ctx { net = net })) λ _. drain fuel scene
      ]

module _ (json : Json) (gl : Raylib) where
  open json use {Value}
  open gl use {Float}

  -- `m_messageQueue` is used nowhere, and the window is raylib's.
  pub record Application : Type 0 where
    pub window_name : Text
    pub window_width : ℕ
    pub window_height : ℕ
    pub scenes : SceneManager Float
    pub ctx : GameContext Value

  -- The constructor; `reached` is whether the server can be connected to.
  unfoldable pub new_application : ℕ → ℕ → Text → Screen Float → Bool → Application
  unfolding register_scene change_scene connect
  new_application width height window_name screen reached = record {
    window_name = window_name;
    window_width = width % 2 ^ 16;
    window_height = height % 2 ^ 16;
    scenes =
        change_scene gl screen login (register_scene game (register_scene login new_scene_manager));
    ctx = new_context (connect reached new_client).1;
  }

  abbrev pub on_ctx : {A : Type 0} → Exec (GameContext Value) A → Exec Application A
  on_ctx m app = let (result, ctx) = m app.ctx in (result, record app { ctx = ctx })

  abbrev run_scene : Option (Scene Float) → Frame Float → Exec Application (Unit {0})
  run_scene none f app = (ok tt, app)
  run_scene (some scene) f app =
      continue (on_ctx (update_scene json gl f scene) app)
        λ after. λ old. (ok tt, record old { scenes = record old.scenes { current = some after } })

  -- a login leads to the game scene, in every frame
  abbrev enter_game : Screen Float → Application → Application
  enter_game screen app =
      if not (is_empty app.ctx.uuid)
      then record app { scenes = change_scene gl screen game app.scenes }
      else app

  -- A frame. What the receiving thread queues during the loop is polled in the next one.
  unfoldable pub update : Frame Float → Exec Application (Unit {0})
  unfolding drain change_scene update_scene
  update f app =
      continue (on_ctx (drain json (length app.ctx.net.recv_queue) app.scenes.current) app) λ _.
        λ polled.
          let entered = enter_game f.screen polled in run_scene entered.scenes.current f entered

  -- Draw
  unfoldable pub draw : Screen Float → Application → List (Call Float) × Application
  unfolding draw_manager
  draw screen app =
      let (calls, scenes) = draw_manager gl screen app.ctx app.scenes in
      (
        begin_drawing ∷ clear_background raywhite ∷ (calls ++ end_drawing ∷ []),
        record app { scenes = scenes },
      )

  -- Run: the frames until the window is to close, and what each draws; then the shutdown.
  unfoldable pub run : List (Frame Float) → Exec Application (List (List (Call Float)))
  unfolding update draw shutdown
  run [] app = (ok [], record app { ctx = record app.ctx { net = shutdown app.ctx.net } })
  run (f ∷ rest) app = continue (update f app) λ _. λ updated.
      let (calls, drawn) = draw f.screen updated in
      continue (run rest drawn) λ later. λ last. (ok (calls ∷ later), last)

  -- main of the client
  unfoldable pub client_main :
      Screen Float → Bool → List (Frame Float) → Outcome (List (List (Call Float)))
  unfolding new_application run
  client_main screen reached frames =
      (run frames (new_application 800 450 (codes "net-pixeld-client") screen reached)).0
