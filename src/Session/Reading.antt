-- ===== src/Session/Reading.antt =====
-- What a session reads from a serialized message (server/src/Session.cpp).
use mathlib.Core.List.{append_assoc}
use net_pixeld.Prelude.{◌<◌, ◌^◌, ◌≡◌, ap, ◌∙◌, true, [], ◌∷◌, ◌++◌, Text}
use net_pixeld.Prelude.Outcome.{ok}
use net_pixeld.Json.{Json, IsLawful}
use net_pixeld.Protocol.{Message, serialize}
use net_pixeld.Protocol.Framing.{has_line, has_line-append, getline-append, strip_cr-printable}
use net_pixeld.Protocol.Roundtrip.{serialize_line}
use net_pixeld.Session.{Session, take_line, next_message}

module _ (json : Json) (lawful : IsLawful json) where
  -- With a JSON library as documented: where a session's buffer holds a serialized message and a
  -- rest, a line is there to be read, the handler gets that message, and the rest stays in the
  -- buffer.
  pub next_message-serialize :
      (m : Message json.Value) (wire rest : Text) (s : Session)
      → m.sequence < 2 ^ 32
      → serialize json m ≡ ok wire
      → s.incoming ≡ wire ++ rest
      → (has_line s.incoming ≡ true) × (next_message json s ≡ (ok m, record s { incoming = rest }))
  unfolding next_message take_line
  next_message-serialize m wire rest s fits sent whole =
      let (line, framed, printable, parsed) = serialize_line json lawful m wire fits sent in
      let text : s.incoming ≡ line ++ 10 ∷ rest =
        whole ∙ ap (λ w. w ++ rest) framed ∙ append_assoc line (10 ∷ []) rest in
      (
        ap has_line text ∙ has_line-append line rest,
        simp (text, getline-append line rest printable, strip_cr-printable line printable, parsed),
      )
