-- ===== src/Client/Application/Backlog.antt =====
-- A backlog of ResourceUpdates, from the bytes to the player's resources
-- (client/src/network/NetworkClient.cpp, client/src/app/Application.cpp,
-- client/src/scenes/GameScene.cpp).
use net_pixeld.Prelude.{
  ℕ, suc, ◌+◌, ◌<◌, ◌^◌, ◌≡◌, refl, sym, ap, ◌∙◌, true, some, List, [], ◌∷◌, ◌++◌, All, arith, Text,
  codes, text_eq, length, if◌then◌else◌,
}
use net_pixeld.Prelude.Outcome.{ok}
use net_pixeld.Prelude.Umap.{Umap, assign, beq_refl}
use net_pixeld.Json.{Json, IsLawful}
use net_pixeld.Resource.{Resources}
use net_pixeld.Protocol.{Message}
use net_pixeld.Server.Tick.{resource_message}
use net_pixeld.Client.Network.{poll_message}
use net_pixeld.Client.Network.Stream.{Serialized, receive_times, receive_times-Serialized}
use net_pixeld.Client.Context.{GameContext}
use net_pixeld.Client.Scenes.{game_scene}
use net_pixeld.Client.Application.{last_seq, in_order, drain}
use net_pixeld.Client.Application.Numbering.{last_seq-assign}
use net_pixeld.Client.Application.Arrival.{FitsResources, process_lem}

abbrev update_type : Text
update_type = codes "ResourceUpdate"

in_order-next :
    (n : ℕ) (type : Text) (seqs : Umap Text ℕ)
    → last_seq type seqs ≡ n
    → n + 1 < 2 ^ 32
    → in_order type (n + 1) seqs ≡ (true, assign type (n + 1) seqs)
unfolding in_order
in_order-next n type seqs e fits = ground (arith, e)

-- the resources after the updates
abbrev pub last_of : Resources → List Resources → Resources
last_of r [] = r
last_of r (pool ∷ pools) = last_of pool pools

module _ (json : Json) where
  -- the server's messages after number `n`, one for each of the pools
  abbrev pub updates : Text → ℕ → List Resources → List (Message json.Value)
  updates uuid n [] = []
  updates uuid n (pool ∷ pools) =
      resource_message json (n + 1) uuid pool ∷ updates uuid (n + 1) pools

  length-updates :
      (uuid : Text) (n : ℕ) (pools : List Resources) → length (updates uuid n pools) ≡ length pools
  length-updates uuid n [] = refl
  length-updates uuid n (pool ∷ pools) = ap suc (length-updates uuid (n + 1) pools)

  module _ (lawful : IsLawful json) (F : Type 0) where
    drain-updates :
        (pools : List Resources) (n : ℕ) (ctx : GameContext json.Value)
        → All FitsResources pools
        → n + length pools < 2 ^ 32
        → last_seq update_type ctx.last_seq_by_type ≡ n
        → ctx.net.recv_queue ≡ updates ctx.uuid n pools
        → let after = drain json {F = F} (length pools) (some game_scene) ctx in
          (after.0 ≡ ok tt)
          × (after.1.player.resources ≡ last_of ctx.player.resources pools)
          × (last_seq update_type after.1.last_seq_by_type ≡ n + length pools)
          × (after.1.net.recv_queue ≡ [])
    unfolding drain poll_message
    drain-updates [] n ctx fits small e q = (refl, refl, e ∙ omega arith, q)
    drain-updates (pool ∷ pools) n ctx (fit, fits) small e q =
        let popped = record ctx {
          net = record ctx.net { recv_queue = updates ctx.uuid (n + 1) pools };
        } in
        let seqs = assign update_type (n + 1) ctx.last_seq_by_type in
        let passes = in_order-next n update_type ctx.last_seq_by_type e (omega (arith, small)) in
        let first = process_lem json lawful F (n + 1) pool popped seqs fit passes in
        let counted : last_seq update_type seqs ≡ n + 1 =
          last_seq-assign update_type update_type (n + 1) ctx.last_seq_by_type
          ∙ ap (λ b. if b then n + 1 else last_seq update_type ctx.last_seq_by_type)
              (beq_refl update_type) in
        let (returned, pools_kept, last, empty) =
          drain-updates pools (n + 1)
            (record popped { last_seq_by_type = seqs; player = record { resources = pool } }) fits
            (omega (arith, small)) counted refl in
        rw (q, first) (returned, pools_kept, last ∙ omega arith, empty)

    -- With a JSON library as documented, a running client in the game scene with an empty queue,
    -- whose last number of ResourceUpdate is n: where its buffer holds the serialized
    -- ResourceUpdates that the server numbers from n + 1, for its uuid, of counters of 64 bits, and
    -- their numbers stay below 2 ^ 32, receiving as often as there are messages and then one polling
    -- loop return, take every message, leave the player with the resources of the last one, and the
    -- last number with that of the last one.
    pub backlog_lem :
        (pools : List Resources) (n : ℕ) (stream : Text) (ctx : GameContext json.Value)
        → All FitsResources pools
        → n + length pools < 2 ^ 32
        → last_seq update_type ctx.last_seq_by_type ≡ n
        → ctx.net.running ≡ true
        → ctx.net.recv_queue ≡ []
        → ctx.net.incoming ≡ stream
        → Serialized json (updates ctx.uuid n pools) stream
        → let received = record ctx { net = receive_times json (length pools) ctx.net } in
          let after = drain json {F = F} (length pools) (some game_scene) received in
          (after.0 ≡ ok tt)
          × (after.1.player.resources ≡ last_of ctx.player.resources pools)
          × (last_seq update_type after.1.last_seq_by_type ≡ n + length pools)
          × (after.1.net.recv_queue ≡ [])
    backlog_lem pools n stream ctx fits small e running idle whole sent =
        let sequence = updates ctx.uuid n pools in
        let queued = record ctx.net { incoming = []; recv_queue = sequence } in
        let received : receive_times json (length pools) ctx.net ≡ queued =
          ap (λ k. receive_times json k ctx.net) (sym (length-updates ctx.uuid n pools))
          ∙ receive_times-Serialized json lawful sequence stream ctx.net sent running whole
          ∙ ap (λ q. record ctx.net { incoming = []; recv_queue = q ++ sequence }) idle in
        rw received (drain-updates pools n (record ctx { net = queued }) fits small e refl)
