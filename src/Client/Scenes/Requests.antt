-- ===== src/Client/Scenes/Requests.antt =====
-- What the server's login handler (server/src/main.cpp) makes of the login scene's request
-- (client/src/scenes/LoginScene.cpp).
use net_pixeld.Prelude.{
  ℕ, ◌≡◌, refl, false, [], ◌∷◌, ◌++◌, Text, codes, text_eq, text_eqb, is_empty,
}
use net_pixeld.Prelude.Umap.{find, Distinct}
use net_pixeld.Prelude.Outcome.{ok}
use net_pixeld.Prelude.Exec.{continue}
use net_pixeld.Json.{Json, IsLawful}
use net_pixeld.Protocol.{serialize}
use net_pixeld.Server.State.{Server}
use net_pixeld.Server.Messages.{handle_login, login_uuid, log_in}
use net_pixeld.Client.Network.{send_message}
use net_pixeld.Client.Context.{GameContext}
use net_pixeld.Client.Scenes.{LoginScene}
use net_pixeld.Client.Scenes.Handling.{login_request, on_click}

module _ (json : Json) (lawful : IsLawful json) where
  open json use {Value, string}

  request_members-Distinct :
      (user pass : Text)
      → Distinct ((codes "id", string user) ∷ (codes "password", string pass) ∷ [])
  unfolding find text_eqb
  request_members-Distinct user pass = (refl, (refl, tt))

  -- With a JSON library as documented: a click with a name and a password, a request that can be
  -- serialized and a write that succeeds writes the request to the socket, and the server's handler
  -- reads that name and that password from it and goes on with their login.
  pub on_click-handle_login :
      {F : Type 0} (scene : LoginScene F) (ctx : GameContext Value) (wire : Text) (id : ℕ)
      (server : Server)
      → is_empty scene.username ≡ false
      → is_empty scene.pass ≡ false
      → serialize json (login_request json scene.username scene.pass) ≡ ok wire
      → (on_click json false scene ctx
          ≡ (ok tt, record ctx { net = record ctx.net { written = ctx.net.written ++ wire ∷ [] } }))
        × (handle_login json id (login_request json scene.username scene.pass) server
            ≡ continue (login_uuid json scene.username scene.pass server) (log_in json id))
  unfolding on_click send_message handle_login find text_eqb
  on_click-handle_login scene ctx wire id server named secret sent =
      let d = request_members-Distinct scene.username scene.pass in
      (
        rw (named, secret, sent),
        rw (
          lawful.at-object _ (codes "id") d,
          lawful.get_string-string scene.username,
          lawful.at-object _ (codes "password") d,
          lawful.get_string-string scene.pass,
        ),
      )
