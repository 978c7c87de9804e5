-- ===== src/Client/Application/Arrival.antt =====
-- From the bytes of a ResourceUpdate to the player's resources (client/src/network/NetworkClient.cpp,
-- client/src/app/Application.cpp, client/src/scenes/GameScene.cpp).
use mathlib.Core.List.{append-nil}
use net_pixeld.Prelude.{
  ℕ, ◌<◌, ◌^◌, ◌≡◌, sym, ap, ◌∙◌, true, some, [], ◌++◌, Text, codes, text_eq, text_eqb,
}
use net_pixeld.Prelude.Outcome.{ok}
use net_pixeld.Prelude.Umap.{Umap, beq_refl}
use net_pixeld.Json.{Json, IsLawful}
use net_pixeld.Resource.{Resources}
use net_pixeld.Protocol.{serialize}
use net_pixeld.Server.Tick.{resource_message}
use net_pixeld.Client.Network.{receive, poll_message}
use net_pixeld.Client.Network.Receiving.{receive-serialize}
use net_pixeld.Client.Context.{GameContext}
use net_pixeld.Client.Scenes.{game_scene}
use net_pixeld.Client.Scenes.Replies.{handle-resource_message}
use net_pixeld.Client.Application.{in_order, process, drain}

-- the counters are those of a `uint64_t`
abbrev pub FitsResources : Resources → Type 0
FitsResources r = (r.wood < 2 ^ 64) × (r.food < 2 ^ 64) × (r.iron < 2 ^ 64)

module _ (json : Json) (lawful : IsLawful json) (F : Type 0) where
  open json use {Value}

  -- the game scene, for its own ResourceUpdate in order
  pub process_lem :
      (seq : ℕ) (pool : Resources) (ctx : GameContext Value) (seqs : Umap Text ℕ)
      → FitsResources pool
      → in_order (codes "ResourceUpdate") seq ctx.last_seq_by_type ≡ (true, seqs)
      → process json {F = F} (some game_scene) (resource_message json seq ctx.uuid pool) ctx
        ≡ (ok tt, record ctx { last_seq_by_type = seqs; player = record { resources = pool } })
  unfolding process text_eqb
  process_lem seq pool ctx seqs (wood, food, iron) next =
      let seen = record ctx { last_seq_by_type = seqs } in
      rw (
        next,
        handle-resource_message json lawful F seq ctx.uuid pool seen wood food iron,
        beq_refl ctx.uuid,
      )

  -- one iteration of the receiving loop, and a frame's loop over the one message
  pub arrival_lem :
      (seq : ℕ) (pool : Resources) (wire : Text) (ctx : GameContext Value) (seqs : Umap Text ℕ)
      → FitsResources pool
      → seq < 2 ^ 32
      → serialize json (resource_message json seq ctx.uuid pool) ≡ ok wire
      → ctx.net.running ≡ true
      → ctx.net.incoming ≡ []
      → ctx.net.recv_queue ≡ []
      → in_order (codes "ResourceUpdate") seq ctx.last_seq_by_type ≡ (true, seqs)
      → drain json {F = F} 1
          (some game_scene)
          (record ctx { net = receive json (some wire) ctx.net })
        ≡ (
          ok tt,
          record ctx {
            last_seq_by_type = seqs;
            player = record { resources = pool };
            net = record ctx.net { incoming = []; recv_queue = [] };
          },
        )
  unfolding drain poll_message
  arrival_lem seq pool wire ctx seqs fits small sent running empty idle next =
      let msg = resource_message json seq ctx.uuid pool in
      let whole : ctx.net.incoming ++ wire ≡ wire ++ [] =
        ap (λ i. i ++ wire) empty ∙ sym (append-nil wire) in
      let got = receive-serialize json lawful msg wire wire [] ctx.net small sent running whole in
      let popped = record ctx { net = record ctx.net { incoming = []; recv_queue = [] } } in
      rw (got, idle, process_lem seq pool popped seqs fits next)
