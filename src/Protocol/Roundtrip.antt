-- ===== src/Protocol/Roundtrip.antt =====
-- What `serialize` writes is one line that `parse` reads back.
use net_pixeld.Prelude.{
  ◌<◌, ◌^◌, ◌≡◌, refl, ap, Option, some, [], ◌∷◌, ◌++◌, arith, Text, codes, text_eq, text_eqb,
  Option-cases, inl, inr,
}
use net_pixeld.Prelude.Outcome.{ok, json_error, or_throw, ◌>>=◌}
use net_pixeld.Prelude.Umap.{find, Distinct}
use net_pixeld.Json.{Json, IsLawful}
use net_pixeld.Protocol.{Message, members, serialize, parse}
use net_pixeld.Protocol.Framing.{IsPrintable}

module _ (json : Json) (lawful : IsLawful json) where
  open json use {Value}

  members-Distinct : (m : Message Value) → Distinct (members json m)
  unfolding find text_eqb
  members-Distinct m = (refl, (refl, (refl, tt)))

  parse-dumped :
      (m : Message Value) (line : Text)
      → m.sequence < 2 ^ 32
      → json.dump (json.object (members json m)) ≡ some line
      → parse json line ≡ ok m
  unfolding parse find text_eqb
  parse-dumped m line fits h =
      let d = members-Distinct m in
      rw (
        lawful.parse-dump _ line h,
        lawful.at-object _ (codes "type") d,
        lawful.get_string-string m.type,
        lawful.at-object _ (codes "sequence") d,
        lawful.get_uint-number 32 m.sequence fits,
        lawful.at-object _ (codes "payload") d,
      )

  -- With a JSON library as documented and a sequence number of 32 bits, what serialize returns is
  -- one line without control characters and a line break, and parse of the line returns the message.
  pub serialize_line :
      (m : Message Value) (wire : Text)
      → m.sequence < 2 ^ 32
      → serialize json m ≡ ok wire
      → (line : Text) × (wire ≡ line ++ 10 ∷ []) × IsPrintable line × (parse json line ≡ ok m)
  unfolding serialize
  serialize_line m wire fits h = elim (Option-cases (json.dump (json.object (members json m)))) [
    | inl e ↦
        cc (h, ap (λ (o : Option Text). or_throw json_error o >>= λ text. ok (text ++ 10 ∷ [])) e)
    | inr (line, e) ↦
        (line, ground (arith, e), lawful.dump_printable _ line e, parse-dumped m line fits e)
  ]
