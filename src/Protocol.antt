-- ===== src/Protocol.antt =====
-- common/Protocol.hpp: the message types and the JSON wrapper, over the JSON library's interface.
pub mod Framing
pub mod Roundtrip
use net_pixeld.Prelude.{ℕ, ◌≡◌, List, [], ◌∷◌, ◌++◌, Text, codes}
use net_pixeld.Prelude.Outcome.{Outcome, ok, json_error, or_throw, ◌>>=◌}
use net_pixeld.Prelude.Umap.{Umap}
use net_pixeld.Json.{Json}

abbrev pub msg_assign_client_id : Text
msg_assign_client_id = codes "AssignClientId"

abbrev pub msg_resource_update : Text
msg_resource_update = codes "ResourceUpdate"

abbrev pub msg_login_request : Text
msg_login_request = codes "LoginRequest"

abbrev pub msg_login_result : Text
msg_login_result = codes "LoginResult"

-- `struct Message`; the payload is a JSON value.
pub record Message (V : Type 0) : Type 0 where
  pub type : Text
  pub sequence : ℕ
  pub payload : V

module _ (json : Json) where
  open json use {Value, object, string, number, dump, at, get_string, get_uint}

  -- the initializer list of `serialize`
  abbrev pub members : Message Value → Umap Text Value
  members m =
      (codes "type", string m.type)
      ∷ (codes "sequence", number m.sequence)
      ∷ (codes "payload", m.payload)
      ∷ []

  unfoldable pub serialize : Message Value → Outcome Text
  serialize m = do text ← or_throw json_error (dump (object (members m))); ok (text ++ 10 ∷ [])

  unfoldable pub parse : Text → Outcome (Message Value)
  parse raw = do
    j ← or_throw json_error (json.parse raw)
    type_value ← or_throw json_error (at j (codes "type"))
    type ← or_throw json_error (get_string type_value)
    sequence_value ← or_throw json_error (at j (codes "sequence"))
    sequence ← or_throw json_error (get_uint 32 sequence_value)
    payload ← or_throw json_error (at j (codes "payload"))
    ok (record { type = type; sequence = sequence; payload = payload })
