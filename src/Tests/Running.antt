-- ===== src/Tests/Running.antt =====
-- The server.
use net_pixeld.Prelude.{
  ◌+◌, ◌%◌, ◌≡◌, refl, true, false, some, List, [], ◌∷◌, ◌++◌, Text, codes, text_eq, nat_eq,
  text_eqb, length,
}
use net_pixeld.Prelude.Outcome.{ok, crash}
use net_pixeld.Prelude.Umap.{find, assign, erase}
use net_pixeld.Json.Tree.{tree_json, print, read, parse}
use net_pixeld.Protocol.{Message, members, serialize, msg_login_request}
use net_pixeld.Disk.{read_file, open_file, write_file, rename}
use net_pixeld.Session.{
  new_session, set_uuid, post, start, send, enqueue, run_posted, do_write, do_read, on_write,
  arrive, take_line, next_message,
}
use net_pixeld.Db.Queries.{
  get_resources, get_user, user_exists, verify_user, find_uuid, update_uuid,
}
use net_pixeld.Db.File.{save, load}
use net_pixeld.Db.Updates.{construct, update_resources}
use net_pixeld.Server.State.{Server, new_server, schedule_resource_tick, do_accept, login_handler}
use net_pixeld.Server.Sessions.{read_session, call_session, send_to}
use net_pixeld.Server.Messages.{login_uuid, login_reply, log_in, register_handler}
use net_pixeld.Server.Tick.{
  add_ten, next_sequence, hand_out, give, tick_session, tick_sessions, on_resource_tick,
}
use net_pixeld.Server.Events.{
  Event, accepted, fired, turned, wrote, arrived, completed, step, add_session, on_written, run,
  boot, on_accept, on_read, handshake,
}
use net_pixeld.Server.Invariant.{IsWellFormed}
use net_pixeld.Server.Ids.{on_accept_lem}
use net_pixeld.Server.Login.{log_in-missing}
use net_pixeld.Server.Stepping.{run-IsWellFormed, boot-IsWellFormed}
use net_pixeld.Server.LoggedIn.{map_ok, turns}
use net_pixeld.Server.Ticks.{add_turns, tick_resources}
use net_pixeld.Tests.Data.{empty_disk, elevens, store, u1, one_player}

tick_returns : (on_resource_tick tree_json false one_player).0 ≡ ok tt
unfolding on_resource_tick tick_sessions tick_session give hand_out next_sequence read_session
    call_session send_to update_resources update_uuid get_resources find_uuid save open_file
    write_file rename serialize add_ten find assign erase text_eqb print post schedule_resource_tick
    send
tick_returns = refl

tick_resources_example :
    (get_resources u1 (on_resource_tick tree_json false one_player).1.db
      ≡ map_ok
          (add_turns (turns u1 one_player.sessions one_player))
          (get_resources u1 one_player.db))
    × ((on_resource_tick tree_json false one_player).1.timer_set ≡ true)
tick_resources_example = tick_resources tree_json u1 one_player tick_returns

-- The program from its start: a connection, its handshake, a login, a tick.
abbrev pub login_line : Text
unfolding print
login_line =
    print (
      tree_json.object (
        (codes "type", tree_json.string (codes "LoginRequest"))
        ∷ (codes "sequence", tree_json.number 1)
        ∷ (
          codes "payload",
          tree_json.object (
              (codes "id", tree_json.string (codes "alice"))
              ∷ (codes "password", tree_json.string (codes "pw"))
              ∷ []),
        )
        ∷ []))
    ++ 10 ∷ []

abbrev pub one_day : List Event
one_day =
    accepted false
    ∷ turned 0
    ∷ wrote 0 false
    ∷ arrived 0 login_line
    ∷ completed 0 false
    ∷ fired false
    ∷ turned 0
    ∷ []

abbrev pub started : Server
started = do_accept (
    register_handler msg_login_request login_handler (
      new_server
        (record { filepath = store; accounts = []; disk = empty_disk; generator = elevens })))

pub boots : boot tree_json store empty_disk elevens ≡ ok started
unfolding boot construct load read_file find
boots = refl

pub day-returns : (run tree_json one_day started).0 ≡ ok tt
unfolding run step on_accept add_session do_accept send_to call_session register_handler new_server
    send serialize start post run_posted on_written on_write arrive
    net_pixeld.Protocol.Framing.has_line on_read next_message
    net_pixeld.Db.File.Format.database_value save find_uuid get_resources get_user update_uuid
    user_exists verify_user net_pixeld.Db.Updates.add_user update_resources
    net_pixeld.Db.Uuid.generate_uuid net_pixeld.Db.Uuid.hex16 net_pixeld.Db.Uuid.hex_digit
    net_pixeld.Db.Uuid.hex_digits open_file rename write_file parse print read text_eqb assign erase
    find net_pixeld.Protocol.Framing.getline net_pixeld.Protocol.Framing.strip_cr
    net_pixeld.Protocol.parse net_pixeld.Server.Messages.handle_login log_in login_uuid
    net_pixeld.Server.Messages.on_client_message net_pixeld.Server.Sessions.get_session
    net_pixeld.Server.Sessions.on_client_disconnect read_session
    net_pixeld.Server.Sessions.send_to_client schedule_resource_tick add_ten give hand_out
    next_sequence on_resource_tick tick_session tick_sessions do_read do_write enqueue set_uuid
    take_line
day-returns = refl

run-IsWellFormed_example : IsWellFormed (run tree_json one_day started).1
run-IsWellFormed_example =
    run-IsWellFormed tree_json one_day started
      (boot-IsWellFormed tree_json store empty_disk elevens started boots)
      (λ e. cc (day-returns, e))

log_in-missing_example : (log_in tree_json 7 (some u1) one_player).0 ≡ crash
unfolding find
log_in-missing_example = log_in-missing tree_json one_player 7 u1 refl

abbrev shaken : Text
unfolding print
shaken = print (tree_json.object (members tree_json (handshake tree_json 2))) ++ 10 ∷ []

on_accept_lem_example : on_accept tree_json false one_player ≡ (
  ok tt,
  record one_player {
    accepting = true;
    next_client_id = (2 + 1) % 256;
    objects = one_player.objects ++ start (post shaken (new_session 2)) ∷ [];
    sessions = assign 2 (some (length one_player.objects)) one_player.sessions;
  },
)
unfolding serialize print
on_accept_lem_example = on_accept_lem tree_json one_player shaken refl
