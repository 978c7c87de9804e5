-- ===== src/Tests/Serving.antt =====
-- The server that can serve.
use net_pixeld.Prelude.{
  All, ◌⊎◌, ℕ, zero, suc, ◌+◌, ◌*◌, ◌%◌, ◌≡◌, ◌≢◌, refl, ap, subst, inl, inr, Bool-cases, true,
  false, none, some, List, [], ◌∷◌, Text, codes, arith, text_eq, nat_eq, eqb, eqb_iff, text_eqb,
  get_elem?,
}
use net_pixeld.Prelude.Outcome.{runtime_error, ok, throw}
use net_pixeld.Prelude.Umap.{find}
use net_pixeld.Json.Tree.{tree_json}
use net_pixeld.Json.Tree.Reading.{tree_json-IsLawful}
use net_pixeld.Db.Queries.{get_resources, find_uuid}
use net_pixeld.Session.{Session}
use net_pixeld.Session.Writes.{IsOrderly, IsOrderly-same, new-IsOrderly}
use net_pixeld.Server.State.{Server, Pointer}
use net_pixeld.Server.Events.{Event, fired, arrived, completed, turned, wrote, run, server_main}
use net_pixeld.Server.Delivering.{served}
use net_pixeld.Session.Writes.{pending}
use net_pixeld.Session.{new_session}
use net_pixeld.Server.Invariant.{IsWellFormed, Leads, IsKnown}
use net_pixeld.Server.LoggedIn.{map_ok, turns}
use net_pixeld.Server.Ticks.{add_turns}
use net_pixeld.Server.Returning.{CanServe}
use net_pixeld.Server.Clock.{clock, clock_lem}
use net_pixeld.Server.Service.{run-CanServe}
use net_pixeld.Server.Steady.{main-NoThrow}
use net_pixeld.Server.Unfailing.{AllBenign, run-returns}
use net_pixeld.Server.Wrapping.{connections, connections_lem, led}
use net_pixeld.Server.Registering.{handle_login_lem}
use net_pixeld.Tests.Data.{empty_disk, elevens, store, u1, alice, playing, one_player}
use net_pixeld.Tests.Running.{login_line, one_day, started, boots, day-returns}
use net_pixeld.Protocol.{Message, msg_login_request}
use net_pixeld.Json.Tree.{Tree}
use net_pixeld.Session.{arrive}
use net_pixeld.Server.Sessions.{call_session, read_session}
use net_pixeld.Server.Events.{step}
use net_pixeld.Server.Registering.{Answer}
use net_pixeld.Client.Network.{new_client}
use net_pixeld.Client.Context.{new_context}
use net_pixeld.Client.Application.{Application}
use net_pixeld.Client.Scenes.{login, game, game_scene, Frame}
use net_pixeld.Tests.Screens.{whole_pixels, typing}
use net_pixeld.System.{Delivers, tick_delivers}

one_player-Leads :
    (id : ℕ) (p : Pointer) → find id one_player.sessions ≡ some p → Leads one_player.objects id p
unfolding find
one_player-Leads id p f = elim (Bool-cases (eqb 1 id)) [
  | inl hit ↦ record {
    ref = 0;
    session = playing;
    points = ground (arith, f, hit);
    there = refl;
    same_id = (eqb_iff 1 id).0 hit;
  }
  | inr miss ↦ ground (arith, f, miss)
]

only_player : (ref : ℕ) (s : Session) → get_elem? one_player.objects ref ≡ some s → playing ≡ s
only_player zero s e = cc
only_player (suc ref) s e = cc

one_player-IsWellFormed : IsWellFormed one_player
unfolding find find_uuid text_eqb
one_player-IsWellFormed = record {
  pointers = one_player-Leads;
  known = λ ref s e.
      subst (λ (o : Session). IsKnown one_player.db.accounts o.uuid) (only_player ref s e)
        (inr (alice, refl));
  orderly = λ ref s e.
      subst IsOrderly (only_player ref s e)
        (IsOrderly-same _ playing refl refl refl (new-IsOrderly 1));
  distinct = (refl, tt);
  next_fits = omega arith;
}

pub one_player-CanServe : CanServe tree_json one_player
one_player-CanServe = record {
  formed = one_player-IsWellFormed;
  can_save = record {
    opens = refl;
    renames = refl;
    storable = (
      record { user = tt; password = tt; uuid = tt; camps = (tt, tt) },
      (record { user = tt; password = tt; uuid = tt; camps = tt }, tt),
    );
    draws = λ i. omega arith;
  };
}

run-CanServe_example : CanServe tree_json (run tree_json one_day started).1
run-CanServe_example =
    run-CanServe tree_json tree_json-IsLawful store empty_disk elevens started one_day refl refl
      (λ i. omega arith) boots (λ e. cc (day-returns, e))

main-NoThrow_example :
    server_main tree_json store empty_disk elevens one_day ≢ throw (runtime_error [])
main-NoThrow_example =
    main-NoThrow tree_json tree_json-IsLawful store empty_disk elevens started one_day
      (runtime_error []) refl refl (λ i. omega arith) boots

clock_lem_example :
    ((clock tree_json 3 one_player).0 ≡ ok tt)
    × CanServe tree_json (clock tree_json 3 one_player).1
    × ((clock tree_json 3 one_player).1.timer_set ≡ true)
    × ((v : Text)
        → get_resources v (clock tree_json 3 one_player).1.db
          ≡ map_ok
              (add_turns (3 * turns v one_player.sessions one_player))
              (get_resources v one_player.db))
clock_lem_example = clock_lem tree_json tree_json-IsLawful 3 one_player one_player-CanServe refl

connections_lem_example :
    ((connections tree_json 255 one_player).0 ≡ ok tt)
    × ((connections tree_json 255 one_player).1.next_client_id ≡ (2 + 255) % 256)
    × (find 0 (connections tree_json 255 one_player).1.sessions ≡ led 255 2 1 0 none)
connections_lem_example =
    connections_lem tree_json tree_json-IsLawful 255 0 one_player refl (omega arith) (omega arith)
      (omega arith)

-- a login that arrives and is read, and a tick
abbrev evening : List Event
evening = arrived 0 login_line ∷ completed 0 false ∷ fired false ∷ []

evening-AllBenign : AllBenign tree_json evening one_player
unfolding step call_session read_session arrive find
evening-AllBenign =
    (tt, ((λ o e. (some 0, ap (λ i. find i one_player.sessions) (id_of o e))), (tt, tt)))
  where
    id_of :
        (o : Session)
        → get_elem? (step tree_json (arrived 0 login_line) one_player).1.objects 0 ≡ some o
        → o.client_id ≡ 1
    id_of o e = cc

run-returns_example :
    ((run tree_json evening one_player).0 ≡ ok tt)
    × CanServe tree_json (run tree_json evening one_player).1
run-returns_example =
    run-returns tree_json tree_json-IsLawful evening one_player one_player-CanServe
      evening-AllBenign

abbrev login_message : Text → Text → Message Tree
login_message user pass = record {
  type = msg_login_request;
  sequence = 1;
  payload =
      tree_json.object
        ((codes "id", tree_json.string user) ∷ (codes "password", tree_json.string pass) ∷ []);
}

handle_login_lem_example :
    Answer tree_json 1 0 playing
      (login_message (codes "alice") (codes "pw"))
      (codes "alice")
      (codes "pw")
      one_player
      (find (codes "alice") one_player.db.accounts)
unfolding find text_eqb
handle_login_lem_example =
    handle_login_lem tree_json tree_json-IsLawful 1 0 playing
      (login_message (codes "alice") (codes "pw")) (codes "alice") (codes "pw") one_player
      one_player-CanServe refl refl refl refl tt

-- alice's client, in the game scene
abbrev client : Application tree_json whole_pixels
client = record {
  window_name = [];
  window_width = 800;
  window_height = 450;
  scenes = record { current_id = game; current = some game_scene; factories = game ∷ login ∷ [] };
  ctx = record (new_context (record new_client { running = true; is_open = true })) { uuid = u1 };
}

abbrev frame : Frame ℕ
frame = record { screen = typing; write_fails = false }

tick_delivers_example : Delivers tree_json whole_pixels frame 1 0 0 playing alice one_player client
unfolding find find_uuid text_eqb
tick_delivers_example =
    tick_delivers tree_json tree_json-IsLawful whole_pixels frame 1 0 0 playing alice one_player
      client one_player-CanServe refl refl refl refl refl (omega arith)
      (record {
        playing = record { in_game = refl; scenes_known = refl; logged_in = refl };
        own = refl;
        running = refl;
        empty = refl;
        idle = refl;
        last = refl;
      })

-- two texts are posted to the session
abbrev told : Session
told = record playing { posted = codes "a" ∷ codes "b" ∷ [] }

abbrev greeted : Server
greeted = record one_player { objects = told ∷ [] }

told-IsOrderly : IsOrderly told
told-IsOrderly = IsOrderly-same (new_session 1) told refl refl refl (new-IsOrderly 1)

served_example :
    (events : List Event) × All (λ event. (event ≡ turned 0) ⊎ (event ≡ wrote 0 false)) events
    × ((run tree_json events greeted).0 ≡ ok tt)
    × (o' : Session) × (get_elem? (run tree_json events greeted).1.objects 0 ≡ some o')
    × (o'.sent ≡ pending told)
served_example = served tree_json 0 greeted told refl told-IsOrderly refl
