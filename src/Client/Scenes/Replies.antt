-- ===== src/Client/Scenes/Replies.antt =====
-- What the scenes make of the server's messages (client/src/scenes/LoginScene.cpp, GameScene.cpp).
use net_pixeld.Prelude.{
  ℕ, ◌<◌, ◌^◌, ◌≡◌, refl, true, [], ◌∷◌, arith, Text, codes, text_eq, text_eqb, ◌==◌, if◌then◌else◌,
}
use net_pixeld.Prelude.Umap.{find, Distinct}
use net_pixeld.Prelude.Outcome.{ok}
use net_pixeld.Json.{Json, IsLawful}
use net_pixeld.Resource.{Resources}
use net_pixeld.Server.Tick.{resource_message}
use net_pixeld.Server.Messages.{login_reply}
use net_pixeld.Client.Context.{GameContext, update_resources}
use net_pixeld.Client.Scenes.{LoginScene, login_scene, game_scene}
use net_pixeld.Client.Scenes.Handling.{handle_message}

module _ (json : Json) (lawful : IsLawful json) where
  open json use {Value, string, number}

  resource_members-Distinct :
      (uuid : Text) (r : Resources)
      → Distinct (
          (codes "uuid", string uuid)
          ∷ (codes "wood", number r.wood)
          ∷ (codes "food", number r.food)
          ∷ (codes "iron", number r.iron)
          ∷ [])
  unfolding find text_eqb
  resource_members-Distinct uuid r = (refl, (refl, (refl, (refl, tt))))

  -- With a JSON library as documented and counters of 64 bits, the game scene takes the server's
  -- ResourceUpdate: it stores exactly the counters sent where the uuid is its own, and changes
  -- nothing where it is another's.
  pub handle-resource_message :
      (F : Type 0) (seq : ℕ) (uuid : Text) (pool : Resources) (ctx : GameContext Value)
      → pool.wood < 2 ^ 64
      → pool.food < 2 ^ 64
      → pool.iron < 2 ^ 64
      → handle_message json {F = F} game_scene (resource_message json seq uuid pool) ctx ≡ (
        ok true,
        if uuid == ctx.uuid then record ctx { player = record { resources = pool } } else ctx,
      )
  unfolding handle_message update_resources find text_eqb
  handle-resource_message F seq uuid pool ctx wood food iron =
      let d = resource_members-Distinct uuid pool in
      rw
        (
          lawful.at-object _ (codes "uuid") d,
          lawful.get_string-string uuid,
          lawful.at-object _ (codes "wood") d,
          lawful.get_uint-number 64 pool.wood wood,
          lawful.at-object _ (codes "food") d,
          lawful.get_uint-number 64 pool.food food,
          lawful.at-object _ (codes "iron") d,
          lawful.get_uint-number 64 pool.iron iron,
        )
        (ground arith)

  -- With a JSON library as documented, the login scene takes the server's LoginResult: the context
  -- has the uuid that was sent.
  pub handle-login_reply :
      {F : Type 0} (scene : LoginScene F) (uuid : Text) (ctx : GameContext Value)
      → handle_message json (login_scene scene) (login_reply json uuid) ctx
        ≡ (ok true, record ctx { uuid = uuid })
  unfolding handle_message find text_eqb
  handle-login_reply scene uuid ctx = rw (
    lawful.at-object ((codes "uuid", string uuid) ∷ []) (codes "uuid") (refl, tt),
    lawful.get_string-string uuid,
  )
