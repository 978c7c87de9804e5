-- ===== src/Client/Network/Stream.antt =====
-- A stream of serialized messages against the messages themselves
-- (client/src/network/NetworkClient.cpp).
use mathlib.Core.List.{append_assoc, append-nil}
use net_pixeld.Prelude.{
  ℕ, zero, suc, ◌<◌, ◌^◌, ◌≡◌, refl, sym, ap, ap₂, ◌∙◌, true, some, List, [], ◌∷◌, ◌++◌, Text,
  length,
}
use net_pixeld.Prelude.Outcome.{ok}
use net_pixeld.Json.{Json, IsLawful}
use net_pixeld.Protocol.{Message, serialize}
use net_pixeld.Client.Network.{NetworkClient, receive}
use net_pixeld.Client.Network.Receiving.{receive-serialize}

module _ (json : Json) where
  -- `n` iterations of the receiving loop, when no more bytes come
  unfoldable pub receive_times : ℕ → NetworkClient json.Value → NetworkClient json.Value
  receive_times zero c = c
  receive_times (suc n) c = receive_times n (receive json (some []) c)

  -- A text is what the messages are serialized to, one after the other.
  abbrev pub Serialized : List (Message json.Value) → Text → Type 0
  Serialized [] stream = stream ≡ []
  Serialized (m ∷ ms) stream =
      (wire : Text) × (rest : Text) × (m.sequence < 2 ^ 32)
      × (serialize json m ≡ ok wire)
      × (stream ≡ wire ++ rest)
      × Serialized ms rest

  module _ (lawful : IsLawful json) where
    -- With a JSON library as documented and a running client whose buffer holds serialized messages,
    -- as many iterations of the receiving loop as there are messages queue exactly these, in order,
    -- and leave the buffer empty.
    pub receive_times-Serialized :
        (ms : List (Message json.Value)) (stream : Text) (c : NetworkClient json.Value)
        → Serialized ms stream
        → c.running ≡ true
        → c.incoming ≡ stream
        → receive_times (length ms) c ≡ record c { incoming = []; recv_queue = c.recv_queue ++ ms }
    unfolding receive_times
    receive_times-Serialized [] stream c none running e =
        ap₂ (λ i q. record c { incoming = i; recv_queue = q }) (e ∙ none)
          (sym (append-nil c.recv_queue))
    receive_times-Serialized (m ∷ ms) stream c (wire, rest, fits, sent, cut, more) running e =
        let whole = append-nil c.incoming ∙ e ∙ cut in
        let first = receive-serialize json lawful m wire [] rest c fits sent running whole in
        let d = record c { incoming = rest; recv_queue = c.recv_queue ++ m ∷ [] } in
        ap (receive_times (length ms)) first
        ∙ receive_times-Serialized ms rest d more running refl
        ∙ ap (λ q. record c { incoming = []; recv_queue = q })
            (append_assoc c.recv_queue (m ∷ []) ms)
