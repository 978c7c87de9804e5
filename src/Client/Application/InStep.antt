-- ===== src/Client/Application/InStep.antt =====
-- The sequence numbers of the server (server/src/Server.cpp, m_lastSeqByType) against those of the
-- client (client/src/app/Application.cpp, lastSeqByType).
use net_pixeld.Prelude.{ℕ, ◌+◌, ◌%◌, ◌^◌, ◌<◌, ◌≡◌, ap, true, false, arith, Text, text_eq, nat_eq}
use net_pixeld.Prelude.Outcome.{ok}
use net_pixeld.Prelude.Umap.{Umap, find, assign, find-assign, beq_refl}
use net_pixeld.Server.State.{Server}
use net_pixeld.Server.Tick
use net_pixeld.Server.Tick.{next_sequence, or_none}
use net_pixeld.Client.Application.{last_seq, in_order}

-- The server counts on by one.
next_sequence_lem :
    (id n : ℕ) (type : Text) (server : Server)
    → Tick.last_seq id type server ≡ n
    → n + 1 < 2 ^ 32
    → ((next_sequence id type server).0 ≡ ok (n + 1))
      × (Tick.last_seq id type (next_sequence id type server).1 ≡ n + 1)
unfolding next_sequence
next_sequence_lem id n type server e fits =
    let same : (Tick.last_seq id type server + 1) % 2 ^ 32 ≡ n + 1 = omega (arith, e) in
    let of_client = or_none (find id server.last_seq_by_type) in
    (
      ap (λ k. ok k) same,
      rw
          (
            find-assign id id (assign type ((Tick.last_seq id type server + 1) % 2 ^ 32) of_client)
                server.last_seq_by_type,
            beq_refl id,
            find-assign type type ((Tick.last_seq id type server + 1) % 2 ^ 32) of_client,
            beq_refl type,
          )
          same,
    )

-- Where the client's last number of a type is the server's and is below 2 ^ 32 - 1, the server's
-- next message carries the next number, the client lets it through, and both have the same last
-- number again.
pub next_sequence-in_order :
    (id n : ℕ) (type : Text) (server : Server) (seqs : Umap Text ℕ)
    → Tick.last_seq id type server ≡ n
    → last_seq type seqs ≡ n
    → n + 1 < 2 ^ 32
    → ((next_sequence id type server).0 ≡ ok (n + 1))
      × (Tick.last_seq id type (next_sequence id type server).1 ≡ n + 1)
      × ((in_order type (n + 1) seqs).0 ≡ true)
      × (last_seq type (in_order type (n + 1) seqs).1 ≡ n + 1)
unfolding in_order
next_sequence-in_order id n type server seqs e f fits =
    let (sent, counted) = next_sequence_lem id n type server e fits in
    let refound = find-assign type type (n + 1) seqs in
    let self = beq_refl type in (sent, counted, ground (arith, f), ground (arith, f, refound, self))

-- Where the client's last number of a type is below the server's, and that below 2 ^ 32 - 1, the
-- client drops the server's next message and is behind again.
pub next_sequence-behind :
    (id m n : ℕ) (type : Text) (server : Server) (seqs : Umap Text ℕ)
    → Tick.last_seq id type server ≡ n
    → last_seq type seqs ≡ m
    → m < n
    → n + 1 < 2 ^ 32
    → ((next_sequence id type server).0 ≡ ok (n + 1))
      × (Tick.last_seq id type (next_sequence id type server).1 ≡ n + 1)
      × ((in_order type (n + 1) seqs).0 ≡ false)
      × (last_seq type (in_order type (n + 1) seqs).1 ≡ m)
unfolding in_order
next_sequence-behind id m n type server seqs e f behind fits =
    let (sent, counted) = next_sequence_lem id n type server e fits in
    let refound = find-assign type type (last_seq type seqs) seqs in
    let self = beq_refl type in (sent, counted, ground (arith, f), ground (arith, f, refound, self))
