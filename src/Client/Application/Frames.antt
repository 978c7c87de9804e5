-- ===== src/Client/Application/Frames.antt =====
-- The loop of a frame (client/src/app/Application.cpp).
use net_pixeld.Prelude.{
  ℕ, zero, suc, ◌≤◌, ◌≡◌, refl, sym, ap, ◌∙◌, Option, none, some, List, [], ◌∷◌, arith, text_eq,
  length,
}
use net_pixeld.Prelude.Outcome.{ok}
use net_pixeld.Prelude.Exec.{continue, continue-inv}
use net_pixeld.Json.{Json}
use net_pixeld.Protocol.{Message}
use net_pixeld.Client.Network.{poll_message}
use net_pixeld.Client.Context.{GameContext}
use net_pixeld.Client.Scenes.{Scene}
use net_pixeld.Client.Scenes.Handling.{handle_message}
use net_pixeld.Client.Application.{in_order, process, drain}

module _ (json : Json) {F : Type 0} where
  handle_message-net :
      (scene : Scene F) (msg : Message json.Value) (ctx : GameContext json.Value)
      → (handle_message json scene msg ctx).1.net ≡ ctx.net
  unfolding handle_message
  handle_message-net scene msg ctx = ground arith

  process-net :
      (scene : Option (Scene F)) (msg : Message json.Value) (ctx : GameContext json.Value)
      → (process json scene msg ctx).1.net ≡ ctx.net
  unfolding process
  process-net none msg ctx = ground arith
  process-net (some scene) msg ctx =
      let seqs = (in_order msg.type msg.sequence ctx.last_seq_by_type).1 in
      ground (arith, handle_message-net scene msg (record ctx { last_seq_by_type = seqs }))

  emptied :
      (fuel : ℕ) (scene : Option (Scene F)) (queue : List (Message json.Value))
      (ctx : GameContext json.Value)
      → ctx.net.recv_queue ≡ queue
      → length queue ≤ fuel
      → (drain json fuel scene ctx).0 ≡ ok tt
      → (drain json fuel scene ctx).1.net.recv_queue ≡ []
  unfolding drain poll_message
  emptied zero scene [] ctx e h r = e
  emptied zero scene (msg ∷ rest) ctx e h r = absurd (omega (arith, h))
  emptied (suc fuel) scene [] ctx e h r = rw e refl
  emptied (suc fuel) scene (msg ∷ rest) ctx e h r =
      let popped = record ctx { net = record ctx.net { recv_queue = rest } } in
      let first = process json scene msg popped in
      let run : drain json (suc fuel) scene ctx ≡ continue first (λ _. drain json fuel scene) =
        rw e refl in
      let (_, _, same) =
        continue-inv first (λ _. drain json fuel scene) tt (sym (ap (λ o. o.0) run) ∙ r) in
      let all = run ∙ same in
      let left : first.1.net.recv_queue ≡ rest =
        ap (λ n. n.recv_queue) (process-net scene msg popped) in
      rw all (emptied fuel scene rest first.1 left (omega (arith, h)) (sym (ap (λ o. o.0) all) ∙ r))

  -- With as much fuel as messages are queued, a polling loop that returns has taken them all.
  pub drain-empties :
      (fuel : ℕ) (scene : Option (Scene F)) (ctx : GameContext json.Value)
      → length ctx.net.recv_queue ≤ fuel
      → (drain json fuel scene ctx).0 ≡ ok tt
      → (drain json fuel scene ctx).1.net.recv_queue ≡ []
  drain-empties fuel scene ctx h e = emptied fuel scene ctx.net.recv_queue ctx refl h e
