-- ===== src/Tests/Playing.antt =====
-- The client, and the names in its log.
use net_pixeld.Prelude.{
  ℕ, ◌+◌, ◌≤◌, ◌≡◌, refl, sym, arith, inl, true, false, none, some, List, [], ◌∷◌, ◌++◌, Text,
  codes, text_eq, nat_eq, text_eqb, ◌==◌, if◌then◌else◌,
}
use net_pixeld.Prelude.Outcome.{ok}
use net_pixeld.Prelude.Umap.{find, assign}
use net_pixeld.Json.Tree.{tree_json, Tree, print}
use net_pixeld.Json.Tree.Reading.{tree_json-IsLawful}
use net_pixeld.Resource.{Resources}
use net_pixeld.Protocol.{members, serialize}
use net_pixeld.Logger.{get_filename}
use net_pixeld.Logger.Filenames.{IsName, get_filename_lem}
use net_pixeld.Server.State.{Server}
use net_pixeld.Server.Tick
use net_pixeld.Server.Tick.{next_sequence, resource_message}
use net_pixeld.Server.Messages.{login_reply, handle_login, login_uuid, log_in}
use net_pixeld.Prelude.Exec.{continue}
use net_pixeld.Client.Scenes.Handling.{login_request, on_click}
use net_pixeld.Client.Scenes.Requests.{on_click-handle_login}
use net_pixeld.Client.Network.{NetworkClient, new_client, poll_message}
use net_pixeld.Client.Button.{Button, Mouse, set_callbacks}
use net_pixeld.Client.Button.Presses.{updates, clicks, releases, releases_le_clicks}
use net_pixeld.Client.Textbox.{k_default_font_size}
use net_pixeld.Client.Textbox.Look.{update, too_wide, transformed_bounds, new_text_box}
use net_pixeld.Tests.Screens.{whole_pixels, typing, empty_scene, box, box_font}
use net_pixeld.Client.Scenes.{new_login_scene, update_login, place}
use net_pixeld.Client.Scenes.Boxes.{update_login-IsFitted, update_login-IsTypeable}
use net_pixeld.Client.Textbox.Typing.{IsTypeable, IsFitted, update-IsTypeable, update-IsFitted}
use net_pixeld.Client.Context.{GameContext, new_context}
use net_pixeld.Client.Scenes.{LoginScene, login_scene, game_scene}
use net_pixeld.Client.Scenes.Handling.{handle_message}
use net_pixeld.Client.Scenes.Replies.{handle-resource_message, handle-login_reply}
use net_pixeld.Client.Application.{last_seq, in_order, drain, process}
use net_pixeld.Client.Application.Numbering.{taken, IsConsecutive, taken-IsConsecutive}
use net_pixeld.Client.Application.Frames.{drain-empties}
use net_pixeld.Client.Application.InStep.{next_sequence-behind}
use net_pixeld.Client.Application.Backlog.{backlog_lem}
use net_pixeld.Client.Network.Stream.{receive_times}
use mathlib.Core.List.{append-nil}
use net_pixeld.Tests.Data.{u1, one_player}

abbrev update_type : Text
update_type = codes "ResourceUpdate"

abbrev pool : Resources
pool = record { wood = 15; food = 10; iron = 17 }

abbrev pool_wire : Text
unfolding print
pool_wire =
    print (tree_json.object (members tree_json (resource_message tree_json 1 u1 pool))) ++ 10 ∷ []

pool-serialize : serialize tree_json (resource_message tree_json 1 u1 pool) ≡ ok pool_wire
unfolding serialize print
pool-serialize = refl

abbrev listening : NetworkClient Tree
listening = record new_client { running = true; is_open = true }

abbrev logged_in : GameContext Tree
logged_in = record (new_context listening) { uuid = u1 }

handle-resource_message_example :
    handle_message tree_json {F = ℕ} game_scene (resource_message tree_json 1 u1 pool) logged_in ≡ (
      ok true,
      if u1 == u1 then record logged_in { player = record { resources = pool } } else logged_in,
    )
handle-resource_message_example =
    handle-resource_message tree_json tree_json-IsLawful ℕ 1 u1 pool logged_in (omega arith)
      (omega arith) (omega arith)

handle-login_reply_example :
    handle_message tree_json
      (login_scene empty_scene)
      (login_reply tree_json u1)
      (new_context listening)
    ≡ (ok true, logged_in)
handle-login_reply_example =
    handle-login_reply tree_json tree_json-IsLawful empty_scene u1 (new_context listening)

abbrev arrivals : List (Text × ℕ)
arrivals =
    (update_type, 1)
    ∷ (update_type, 3)
    ∷ (codes "LoginResult", 1)
    ∷ (update_type, 2)
    ∷ (update_type, 2)
    ∷ []

arrivals-taken : taken update_type arrivals [] ≡ 1 ∷ 2 ∷ []
unfolding taken in_order find assign text_eqb
arrivals-taken = refl

taken-IsConsecutive_example :
    IsConsecutive (last_seq update_type []) (taken update_type arrivals [])
taken-IsConsecutive_example = taken-IsConsecutive update_type arrivals []

abbrev queued : GameContext Tree
queued = new_context (record listening {
  recv_queue = resource_message tree_json 1 u1 pool ∷ resource_message tree_json 2 u1 pool ∷ [];
})

drain-empties_example : (drain tree_json {F = ℕ} 2 none queued).1.net.recv_queue ≡ []
unfolding drain process poll_message in_order find assign text_eqb
drain-empties_example = drain-empties tree_json {F = ℕ} 2 none queued (omega arith) refl

abbrev backlog : GameContext Tree
backlog = record (new_context (record listening { incoming = pool_wire })) { uuid = u1 }

backlog_lem_example :
    let received = record backlog { net = receive_times tree_json 1 backlog.net } in
    let after = drain tree_json {F = ℕ} 1 (some game_scene) received in
    (after.0 ≡ ok tt)
    × (after.1.player.resources ≡ pool)
    × (last_seq update_type after.1.last_seq_by_type ≡ 1)
    × (after.1.net.recv_queue ≡ [])
unfolding find
backlog_lem_example =
    backlog_lem tree_json tree_json-IsLawful ℕ (pool ∷ []) 0 pool_wire backlog
      ((omega arith, omega arith, omega arith), tt) (omega arith) refl refl refl refl
      (pool_wire, [], omega arith, pool-serialize, sym (append-nil pool_wire), refl)

-- an earlier client with the id 1 was sent four updates
abbrev reused : Server
reused = record one_player { last_seq_by_type = (1, (update_type, 4) ∷ []) ∷ [] }

next_sequence-behind_example :
    ((next_sequence 1 update_type reused).0 ≡ ok (4 + 1))
    × (Tick.last_seq 1 update_type (next_sequence 1 update_type reused).1 ≡ 4 + 1)
    × ((in_order update_type (4 + 1) []).0 ≡ false)
    × (last_seq update_type (in_order update_type (4 + 1) []).1 ≡ 0)
unfolding find text_eqb
next_sequence-behind_example =
    next_sequence-behind 1 0 4 update_type reused [] refl refl (omega arith) (omega arith)

abbrev login_button : Button ℕ
unfolding set_callbacks
login_button = set_callbacks true true true empty_scene.login_button

abbrev frames : List Mouse
frames =
    record { hovering = true; down = true; went_down = true; went_up = false }
    ∷ record { hovering = true; down = false; went_down = false; went_up = true }
    ∷ record { hovering = true; down = false; went_down = false; went_up = true }
    ∷ []

releases_le_clicks_example :
    releases (updates frames login_button).0 ≤ clicks (updates frames login_button).0
unfolding login_button new_login_scene
releases_le_clicks_example = releases_le_clicks frames login_button refl refl

update-IsTypeable_example :
    IsTypeable (update whole_pixels typing typing.typed box_font box).2.input_text
unfolding new_login_scene new_text_box
update-IsTypeable_example = update-IsTypeable whole_pixels typing typing.typed box_font box tt

update-IsFitted_example :
    IsFitted
      (too_wide whole_pixels box_font.texture_id
        (update whole_pixels typing typing.typed box_font box).2.input_text
        (transformed_bounds whole_pixels box).width)
      k_default_font_size
      (update whole_pixels typing typing.typed box_font box).1.size
update-IsFitted_example = update-IsFitted whole_pixels typing typing.typed box_font box

abbrev main_cpp : Text
main_cpp = codes "m.cpp"

main_cpp-IsName : IsName main_cpp
main_cpp-IsName = ground arith

get_filename_example :
    (get_filename (codes "src\\server" ++ b'/' ∷ main_cpp) ≡ main_cpp)
    × (get_filename main_cpp ≡ main_cpp)
get_filename_example =
    get_filename_lem (codes "src\\server") b'/' main_cpp (inl refl) main_cpp-IsName

abbrev filled : LoginScene ℕ
filled = record empty_scene { username = codes "alice"; pass = codes "pw" }

abbrev request_wire : Text
unfolding print
request_wire =
    print
      (tree_json.object (members tree_json (login_request tree_json (codes "alice") (codes "pw"))))
    ++ 10 ∷ []

on_click-handle_login_example :
    (on_click tree_json false filled logged_in
      ≡ (ok tt, record logged_in { net = record listening { written = request_wire ∷ [] } }))
    × (handle_login tree_json 1 (login_request tree_json (codes "alice") (codes "pw")) one_player
        ≡ continue
            (login_uuid tree_json (codes "alice") (codes "pw") one_player)
            (log_in tree_json 1))
unfolding serialize print
on_click-handle_login_example =
    on_click-handle_login tree_json tree_json-IsLawful filled logged_in request_wire 1 one_player
      refl refl refl

update_login-IsFitted_example :
    IsFitted
      (too_wide whole_pixels empty_scene.font.texture_id
        (update_login whole_pixels typing empty_scene).1.pass
        (transformed_bounds whole_pixels
          (place whole_pixels typing empty_scene).pass_textbox).width)
      k_default_font_size
      (update_login whole_pixels typing empty_scene).1.font.size
update_login-IsFitted_example = update_login-IsFitted whole_pixels typing empty_scene

update_login-IsTypeable_example :
    IsTypeable (update_login whole_pixels typing empty_scene).1.username
    × IsTypeable (update_login whole_pixels typing empty_scene).1.pass
unfolding new_login_scene new_text_box
update_login-IsTypeable_example = update_login-IsTypeable whole_pixels typing empty_scene tt tt
