-- ===== src/Server/Ids.antt =====
-- Client ids: a byte that counts connections, the key of m_sessions (server/src/Server.cpp).
use net_pixeld.Prelude.{
  ℕ, ◌+◌, ◌%◌, ◌≡◌, refl, ◌∙◌, true, false, none, some, [], ◌∷◌, ◌++◌, Text, text_eq, nat_eq,
  get_elem?, length, get_elem?-append_length, set-append_length, eqb_iff,
}
use net_pixeld.Prelude.Outcome.{ok}
use net_pixeld.Prelude.Umap.{find, assign, find-erase}
use net_pixeld.Json.{Json}
use net_pixeld.Protocol.{serialize}
use net_pixeld.Session.{Session, new_session, send, post, start}
use net_pixeld.Server.State.{Server, do_accept}
use net_pixeld.Server.Sessions.{read_session, call_session, send_to, on_client_disconnect}
use net_pixeld.Server.Events.{on_accept, add_session, handshake, on_read}

module _ (json : Json) (server : Server) where
  -- Where the handshake can be serialized, an accepted connection gets the next id whatever
  -- m_sessions held for it, its session has the handshake posted and its read started, the counter
  -- goes on modulo 256, and the next connection is awaited.
  pub on_accept_lem :
      (text : Text)
      → serialize json (handshake json server.next_client_id) ≡ ok text
      → on_accept json false server ≡ (
        ok tt,
        record server {
          accepting = true;
          next_client_id = (server.next_client_id + 1) % 256;
          objects = server.objects ++ start (post text (new_session server.next_client_id)) ∷ [];
          sessions = assign server.next_client_id (some (length server.objects)) server.sessions;
        },
      )
  unfolding on_accept add_session send_to call_session read_session send do_accept
  on_accept_lem text g =
      let fresh = new_session server.next_client_id in
      let greeted = post text fresh in
      rw (
        get_elem?-append_length server.objects fresh,
        g,
        set-append_length server.objects fresh greeted,
        get_elem?-append_length server.objects greeted,
        set-append_length server.objects greeted (start greeted),
      )

  -- A session whose read fails removes whatever m_sessions holds for its id.
  pub on_read_failed :
      (ref : ℕ) (s : Session)
      → get_elem? server.objects ref ≡ some s
      → ((on_read json (some ref) true server).0 ≡ ok tt)
        × (find s.client_id (on_read json (some ref) true server).1.sessions ≡ none)
  unfolding on_read call_session read_session on_client_disconnect
  on_read_failed ref s e = rw e (
    refl,
    find-erase s.client_id s.client_id server.sessions
        ∙ rw ((eqb_iff s.client_id s.client_id).1 refl),
  )
