-- ===== src/Client/Application/Turn.antt =====
-- A whole frame of the game scene that gets one ResourceUpdate (client/src/app/Application.cpp,
-- client/src/scenes/SceneManager.cpp).
use mathlib.Core.List.{append-nil}
use net_pixeld.Prelude.{
  ℕ, ◌<◌, ◌^◌, ◌≡◌, refl, sym, ap, ◌∙◌, true, false, some, [], ◌∷◌, ◌++◌, Text, codes, text_eq,
  is_empty, length,
}
use net_pixeld.Prelude.Outcome.{ok}
use net_pixeld.Prelude.Umap.{Umap}
use net_pixeld.Json.{Json, IsLawful}
use net_pixeld.Resource.{Resources}
use net_pixeld.Protocol.{serialize}
use net_pixeld.Server.Tick.{resource_message}
use net_pixeld.Client.Raylib.{Raylib}
use net_pixeld.Client.Network.{receive}
use net_pixeld.Client.Network.Receiving.{receive-serialize}
use net_pixeld.Client.Scenes.{login, game, game_scene, Frame, change_scene, enter}
use net_pixeld.Client.Scenes.Handling.{update_scene}
use net_pixeld.Client.Application.{Application, in_order, update}
use net_pixeld.Client.Application.Arrival.{FitsResources, arrival_lem}

module _ (json : Json) (gl : Raylib) where
  -- the application after one iteration of the receiving loop
  abbrev pub hear : Text → Application json gl → Application json gl
  hear bytes app = record app {
    ctx = record app.ctx { net = receive json (some bytes) app.ctx.net };
  }

  -- The application is in the game scene, with both scenes registered.
  pub record InGame (app : Application json gl) : Type 0 where
    pub in_game : app.scenes.current ≡ some game_scene
    pub scenes_known : app.scenes.factories ≡ game ∷ login ∷ []
    pub logged_in : is_empty app.ctx.uuid ≡ false

  module _ (lawful : IsLawful json) where
    -- The messages are polled, the game scene is entered anew, and is updated.
    pub update_arrival :
        (f : Frame gl.Float) (seq : ℕ) (pool : Resources) (wire : Text) (app : Application json gl)
        (seqs : Umap Text ℕ)
        → InGame app
        → FitsResources pool
        → seq < 2 ^ 32
        → serialize json (resource_message json seq app.ctx.uuid pool) ≡ ok wire
        → app.ctx.net.running ≡ true
        → app.ctx.net.incoming ≡ []
        → app.ctx.net.recv_queue ≡ []
        → in_order (codes "ResourceUpdate") seq app.ctx.last_seq_by_type ≡ (true, seqs)
        → update json gl f (hear wire app) ≡ (
          ok tt,
          record app {
            ctx = record app.ctx {
              last_seq_by_type = seqs;
              player = record { resources = pool };
              net = record app.ctx.net { incoming = []; recv_queue = [] };
            };
            scenes = record app.scenes { current_id = game; current = some game_scene };
          },
        )
    unfolding update change_scene update_scene enter
    update_arrival f seq pool wire app seqs h fits small sent running empty idle next =
        let net = app.ctx.net in
        let msg = resource_message json seq app.ctx.uuid pool in
        let whole : net.incoming ++ wire ≡ wire ++ [] =
          ap (λ i. i ++ wire) empty ∙ sym (append-nil wire) in
        let queued : length (receive json (some wire) net).recv_queue ≡ 1 =
          ap (λ c. length c.recv_queue)
            (receive-serialize json lawful msg wire wire [] net small sent running whole)
          ∙ ap (λ q. length (q ++ msg ∷ [])) idle in
        let drained =
          arrival_lem json lawful gl.Float seq pool wire app.ctx seqs fits small sent running empty
            idle next in
        rw (h.in_game, queued, drained, h.logged_in, h.scenes_known) refl
