-- ===== src/Tests/Wire.antt =====
-- Messages, lines and sessions.
use net_pixeld.Prelude.{◌≡◌, refl, arith, false, List, [], ◌∷◌, ◌++◌, Text, codes, text_eq}
use net_pixeld.Prelude.Outcome.{ok}
use net_pixeld.Json.Tree.{tree_json, print}
use net_pixeld.Json.Tree.Reading.{tree_json-IsLawful}
use net_pixeld.Protocol.{serialize, parse}
use net_pixeld.Protocol.Framing.{IsPrintable}
use net_pixeld.Protocol.Roundtrip.{serialize_line}
use net_pixeld.Session.{new_session}
use net_pixeld.Session.{Session, next_message}
use net_pixeld.Prelude.{true}
use net_pixeld.Session.Reading.{next_message-serialize}
use net_pixeld.Protocol.Framing.{has_line}
use net_pixeld.Session.Writes.{
  Move, posts, turns, completes, moves, texts, pending, IsOrderly, moves-IsOrderly, new-IsOrderly,
}
use net_pixeld.Server.Messages.{login_reply}
use net_pixeld.Client.Network.{NetworkClient, new_client}
use net_pixeld.Client.Network.Stream.{receive_times, receive_times-Serialized}
use net_pixeld.Json.Tree.{Tree}
use net_pixeld.Prelude.{List}
use net_pixeld.Tests.Data.{u1}

abbrev wire : Text
unfolding print
wire =
    print (
      tree_json.object (
        (codes "type", tree_json.string (codes "LoginResult"))
        ∷ (codes "sequence", tree_json.number 1)
        ∷ (codes "payload", (login_reply tree_json u1).payload)
        ∷ []))
    ++ 10 ∷ []

serializes : serialize tree_json (login_reply tree_json u1) ≡ ok wire
unfolding serialize print
serializes = refl

serialize_line_example :
    (line : Text) × (wire ≡ line ++ 10 ∷ [])
    × IsPrintable line
    × (parse tree_json line ≡ ok (login_reply tree_json u1))
serialize_line_example =
    serialize_line tree_json tree_json-IsLawful (login_reply tree_json u1) wire (omega arith)
      serializes

abbrev exchange : List Move
exchange =
    posts (codes "a")
    ∷ posts (codes "b")
    ∷ turns
    ∷ turns
    ∷ completes false
    ∷ posts (codes "c")
    ∷ completes false
    ∷ turns
    ∷ completes false
    ∷ []

moves-IsOrderly_example :
    ((moves exchange (new_session 1)).0 ≡ ok tt)
    × IsOrderly (moves exchange (new_session 1)).1
    × (pending (moves exchange (new_session 1)).1 ≡ pending (new_session 1) ++ texts exchange)
moves-IsOrderly_example = moves-IsOrderly exchange (new_session 1) (new-IsOrderly 1)

-- the reply and half of the next line have come
abbrev half_read : Session
half_read = record (new_session 1) { incoming = wire ++ codes "{}" }

next_message-serialize_example :
    (has_line half_read.incoming ≡ true)
    × (next_message tree_json half_read
        ≡ (ok (login_reply tree_json u1), record half_read { incoming = codes "{}" }))
next_message-serialize_example =
    next_message-serialize tree_json tree_json-IsLawful (login_reply tree_json u1) wire (codes "{}")
      half_read (omega arith) serializes refl

-- one text is being written, one is queued, and one waits for the strand
abbrev busy : Session
busy = record (new_session 1) {
  writes = codes "a" ∷ [];
  outgoing = codes "a" ∷ codes "b" ∷ [];
  posted = codes "c" ∷ [];
}

busy-IsOrderly : IsOrderly busy
busy-IsOrderly = record { healthy = λ e. refl; stopped = λ e. cc }

abbrev twice : NetworkClient Tree
twice = record new_client { running = true; incoming = wire ++ (wire ++ []) }

receive_times-Serialized_example : receive_times tree_json 2 twice ≡ record twice {
  incoming = [];
  recv_queue = login_reply tree_json u1 ∷ login_reply tree_json u1 ∷ [];
}
receive_times-Serialized_example =
    receive_times-Serialized tree_json tree_json-IsLawful
      (login_reply tree_json u1 ∷ login_reply tree_json u1 ∷ []) (wire ++ (wire ++ [])) twice
      (
        wire,
        wire ++ [],
        omega arith,
        serializes,
        refl,
        (wire, [], omega arith, serializes, refl, refl),
      )
      refl refl
