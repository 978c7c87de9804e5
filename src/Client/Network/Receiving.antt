-- ===== src/Client/Network/Receiving.antt =====
-- What the receiving thread makes of a serialized message (client/src/network/NetworkClient.cpp).
use net_pixeld.Prelude.{◌<◌, ◌^◌, ◌≡◌, ap, ◌∙◌, true, some, [], ◌∷◌, ◌++◌, Text}
use mathlib.Core.List.{append_assoc}
use net_pixeld.Prelude.Outcome.{ok}
use net_pixeld.Json.{Json, IsLawful}
use net_pixeld.Protocol.{Message, serialize}
use net_pixeld.Protocol.Framing.{has_line-append, getline-append, strip_cr-printable}
use net_pixeld.Protocol.Roundtrip.{serialize_line}
use net_pixeld.Client.Network.{NetworkClient, receive, take_message}

module _ (json : Json) (lawful : IsLawful json) where
  -- With a JSON library as documented and a running client: where the buffer and the bytes that come
  -- are a serialized message and a rest, an iteration of the receiving loop queues that message and
  -- leaves the rest in the buffer.
  pub receive-serialize :
      (m : Message json.Value) (wire bytes rest : Text) (c : NetworkClient json.Value)
      → m.sequence < 2 ^ 32
      → serialize json m ≡ ok wire
      → c.running ≡ true
      → c.incoming ++ bytes ≡ wire ++ rest
      → receive json (some bytes) c
        ≡ record c { incoming = rest; recv_queue = c.recv_queue ++ m ∷ [] }
  unfolding receive take_message
  receive-serialize m wire bytes rest c fits sent running whole =
      let (line, framed, printable, parsed) = serialize_line json lawful m wire fits sent in
      let text : c.incoming ++ bytes ≡ line ++ 10 ∷ rest =
        whole ∙ ap (λ w. w ++ rest) framed ∙ append_assoc line (10 ∷ []) rest in
      rw (
        running,
        text,
        has_line-append line rest,
        getline-append line rest printable,
        strip_cr-printable line printable,
        parsed,
      )
