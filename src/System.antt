-- ===== src/System.antt =====
-- The server and the client together: a turn of the server's tick (server/src/Server.cpp) and the frame
-- of the client that gets its message (client/src/app/Application.cpp).
use net_pixeld.Prelude.{
  All, ◌⊎◌, List, ◌++◌, ◌∷◌, ℕ, ◌+◌, ◌%◌, ◌^◌, ◌<◌, ◌≡◌, refl, sym, ap, subst, ◌∙◌, true, false,
  some, [], arith, Text, codes, text_eq, nat_eq, get_elem?, set, get_elem?-set_self, get_elem?-lt,
  is_empty,
}
use net_pixeld.Prelude.Outcome.{Outcome, ok, throw, crash}
use net_pixeld.Prelude.Exec.{continue}
use net_pixeld.Json.{Json, IsLawful}
use net_pixeld.Resource.{Resources}
use net_pixeld.Protocol.{Message, serialize}
use net_pixeld.Session.{Session, send, post}
use net_pixeld.Db.Types.{Account, Db}
use net_pixeld.Db.Queries.{find_uuid, get_resources}
use net_pixeld.Db.Updates.{update_resources}
use net_pixeld.Db.Encodable.{find_uuid-IsEncodable}
use net_pixeld.Db.Totality.{update_resources_total}
use net_pixeld.Server.State.{Server}
use net_pixeld.Server.Sessions.{read_session, call_session, send_to}
use net_pixeld.Server.Tick
use net_pixeld.Server.Tick.{resource_message, add_ten, next_sequence, hand_out, give, tick_session}
use net_pixeld.Server.Returning.{CanServe, serialize_total, resource_message-IsUtf8}
use net_pixeld.Server.Events.{Event, turned, wrote, run}
use net_pixeld.Session.Writes.{pending}
use net_pixeld.Server.Delivering.{served-post}
use net_pixeld.Client.Raylib.{Raylib}
use net_pixeld.Client.Scenes.{game, game_scene, Frame}
use net_pixeld.Client.Application.{Application, last_seq, in_order, update}
use net_pixeld.Client.Application.InStep.{next_sequence-in_order}
use net_pixeld.Client.Application.Arrival.{FitsResources}
use net_pixeld.Client.Application.Turn.{hear, InGame, update_arrival}

add_ten-FitsResources : (r : Resources) → FitsResources (add_ten r)
unfolding add_ten
add_ten-FitsResources r = (omega arith, omega arith, omega arith)

module _ (json : Json) where
  sent_lem :
      (ref : ℕ) (msg : Message json.Value) (wire : Text) (o : Session) (r : Outcome (Unit {0}) × Db)
      (s : Server)
      → r.0 ≡ ok tt
      → get_elem? s.objects ref ≡ some o
      → serialize json msg ≡ ok wire
      → continue (r.0, record s { db = r.1 }) (λ _. send_to json (some ref) msg)
        ≡ (ok tt, record s { db = r.1; objects = set s.objects ref (post wire o) })
  unfolding send_to call_session read_session send
  sent_lem ref msg wire o (ok _, db) s e there sent = rw (there, sent)
  sent_lem ref msg wire o (throw x, db) s e there sent = cc
  sent_lem ref msg wire o (crash, db) s e there sent = cc

  -- What a turn for one session does.
  pub hand_out_lem :
      (id ref n : ℕ) (uuid : Text) (pool : Resources) (wire : Text) (o : Session) (s : Server)
      → (next_sequence id (codes "ResourceUpdate") s).0 ≡ ok n
      → (update_resources json uuid pool s.db).0 ≡ ok tt
      → get_elem? s.objects ref ≡ some o
      → serialize json (resource_message json n uuid pool) ≡ ok wire
      → hand_out json id (some ref) uuid pool s ≡ (
        ok tt,
        record s {
          last_seq_by_type = (next_sequence id (codes "ResourceUpdate") s).1.last_seq_by_type;
          db = (update_resources json uuid pool s.db).1;
          objects = set s.objects ref (post wire o);
        },
      )
  unfolding hand_out next_sequence
  hand_out_lem id ref n uuid pool wire o s counted updated there sent =
      let seq = (Tick.last_seq id (codes "ResourceUpdate") s + 1) % 2 ^ 32 in
      let same : n ≡ seq = cc in
      let numbered = (next_sequence id (codes "ResourceUpdate") s).1 in
      sent_lem ref (resource_message json seq uuid pool) wire o
        (update_resources json uuid pool s.db) numbered updated there
        (ap (λ k. serialize json (resource_message json k uuid pool)) (sym same) ∙ sent)

  module _ (gl : Raylib) where
    -- The client is in step: it is in the game scene with the uuid, and its last number is the
    -- server's.
    pub record InStep (uuid : Text) (n : ℕ) (app : Application json gl) : Type 0 where
      pub playing : InGame json gl app
      pub own : app.ctx.uuid ≡ uuid
      pub running : app.ctx.net.running ≡ true
      pub empty : app.ctx.net.incoming ≡ []
      pub idle : app.ctx.net.recv_queue ≡ []
      pub last : last_seq (codes "ResourceUpdate") app.ctx.last_seq_by_type ≡ n

    -- From a turn of the tick to the client's player.
    module _ (f : Frame gl.Float) (id ref n : ℕ) (o : Session) (acc : Account) (s : Server)
        (app : Application json gl) where
      abbrev ticked : Outcome (Unit {0}) × Server
      ticked = tick_session json (id, some ref) s

      pub record Delivers : Type 0 where
        pub wire : Text
        pub ticks : ticked.0 ≡ ok tt
        pub counts : Tick.last_seq id (codes "ResourceUpdate") ticked.1 ≡ n + 1
        -- turns of the session's strand and writes that succeed
        pub events : List Event
        pub own_events : All (λ event. (event ≡ turned ref) ⊎ (event ≡ wrote ref false)) events
        pub events_return : (run json events ticked.1).0 ≡ ok tt
        pub later : Session
        pub still_there : get_elem? (run json events ticked.1).1.objects ref ≡ some later
        pub socket : later.sent ≡ pending o ++ wire ∷ []
        -- the frame of the client that has read the text from its socket
        pub frame_returns : (update json gl f (hear json gl wire app)).0 ≡ ok tt
        pub resources :
            (update json gl f (hear json gl wire app)).1.ctx.player.resources
            ≡ add_ten acc.resources
        pub in_step : InStep o.uuid (n + 1) (update json gl f (hear json gl wire app)).1

  module _ (lawful : IsLawful json) (gl : Raylib) (f : Frame gl.Float) where
    -- A turn of the tick posts a text, which leads the client to the new resources.
    tick_reaches :
        (id ref n : ℕ) (o : Session) (acc : Account) (s : Server) (app : Application json gl)
        → CanServe json s
        → get_elem? s.objects ref ≡ some o
        → is_empty o.uuid ≡ false
        → find_uuid o.uuid s.db.accounts ≡ some acc
        → Tick.last_seq id (codes "ResourceUpdate") s ≡ n
        → n + 1 < 2 ^ 32
        → InStep gl o.uuid n app
        → (wire : Text) × ((tick_session json (id, some ref) s).0 ≡ ok tt)
          × (get_elem? (tick_session json (id, some ref) s).1.objects ref ≡ some (post wire o))
          × (Tick.last_seq id (codes "ResourceUpdate") (tick_session json (id, some ref) s).1
              ≡ n + 1)
          × ((update json gl f (hear json gl wire app)).0 ≡ ok tt)
          × ((update json gl f (hear json gl wire app)).1.ctx.player.resources
              ≡ add_ten acc.resources)
          × InStep gl o.uuid (n + 1) (update json gl f (hear json gl wire app)).1
    unfolding tick_session read_session give get_resources
    tick_reaches id ref n o acc s app h there logged held counted small step =
        let type = codes "ResourceUpdate" in
        let pool = add_ten acc.resources in
        let (numbered, next, passes, after) =
          next_sequence-in_order id n type s app.ctx.last_seq_by_type counted step.last small in
        let (wire, sent) = serialize_total json lawful (resource_message json (n + 1) o.uuid pool) (
          resource_message-IsUtf8 json lawful (n + 1) o.uuid pool
            (find_uuid-IsEncodable json o.uuid s.db.accounts acc held h.can_save.storable)) in
        let (updated, _) =
          update_resources_total json lawful o.uuid pool s.db acc held h.can_save in
        let turn = hand_out_lem id ref (n + 1) o.uuid pool wire o s numbered updated there sent in
        let own = ap (λ u. serialize json (resource_message json (n + 1) u pool)) step.own ∙ sent in
        let seqs = (in_order type (n + 1) app.ctx.last_seq_by_type).1 in
        let got =
          update_arrival json gl lawful f (n + 1) pool wire app seqs step.playing
            (add_ten-FitsResources acc.resources) small own step.running step.empty step.idle
            (ap (λ b. (b, seqs)) passes) in
        let now : InStep gl o.uuid (n + 1) (record app {
          ctx = record app.ctx {
            last_seq_by_type = seqs;
            player = record { resources = pool };
            net = record app.ctx.net { incoming = []; recv_queue = [] };
          };
          scenes = record app.scenes { current_id = game; current = some game_scene };
        }) =
          record {
            playing = record {
              in_game = refl;
              scenes_known = step.playing.scenes_known;
              logged_in = step.playing.logged_in;
            };
            own = step.own;
            running = step.running;
            empty = refl;
            idle = refl;
            last = after;
          } in
        rw (there, logged, held, turn)
          (
            wire,
            refl,
            get_elem?-set_self s.objects ref (post wire o) (get_elem?-lt s.objects ref o there),
            next,
            ap (λ r. r.0) got,
            ap (λ r. r.1.ctx.player.resources) got,
            subst (λ r. InStep gl o.uuid (n + 1) r.1) (sym got) now,
          )

    -- With a JSON library as documented: where the server is well-formed and can save, a session
    -- whose writes have not failed is logged in with a uuid that some account has, and the client is
    -- in the game scene with that uuid, both scenes registered, an empty buffer and queue, and the
    -- server's last number of ResourceUpdate, below 2 ^ 32 - 1: a turn of the tick for the session
    -- returns; some events, turns of the session's strand and writes that succeed, all return and
    -- lead to the socket having taken what was pending and then one text; the update of the client's
    -- application after receiving that text returns, the player then has ten more of each resource,
    -- modulo 2 ^ 64, than the first account with the uuid had, and the client is in the game scene
    -- and both sides have the next number.
    pub tick_delivers :
        (id ref n : ℕ) (o : Session) (acc : Account) (s : Server) (app : Application json gl)
        → CanServe json s
        → get_elem? s.objects ref ≡ some o
        → o.broken ≡ false
        → is_empty o.uuid ≡ false
        → find_uuid o.uuid s.db.accounts ≡ some acc
        → Tick.last_seq id (codes "ResourceUpdate") s ≡ n
        → n + 1 < 2 ^ 32
        → InStep gl o.uuid n app
        → Delivers gl f id ref n o acc s app
    tick_delivers id ref n o acc s app h there healthy logged held counted small step =
        let (wire, ticks, posted, counts, returns, resources, in_step) =
          tick_reaches id ref n o acc s app h there logged held counted small step in
        let (events, own, ran, later, found, sent) =
          served-post json ref wire (tick_session json (id, some ref) s).1 o posted
            (h.formed.orderly ref o there) healthy in
        record {
          wire = wire;
          ticks = ticks;
          counts = counts;
          events = events;
          own_events = own;
          events_return = ran;
          later = later;
          still_there = found;
          socket = sent;
          frame_returns = returns;
          resources = resources;
          in_step = in_step;
        }
