-- ===== src/Client/Context.antt =====
-- Player and GameContext (client/src/game/Player.cpp, client/inc/game/).
use net_pixeld.Prelude.{ℕ, Text, []}
use net_pixeld.Prelude.Umap.{Umap}
use net_pixeld.Resource.{Resources, no_resources}
use net_pixeld.Client.Network.{NetworkClient}

pub record Player : Type 0 where
  pub resources : Resources

abbrev pub new_player : Player
new_player = record { resources = no_resources }

-- The destructor has nothing to do.
abbrev pub destroy_player : Player → Player
destroy_player p = p

unfoldable pub update_resources : Resources → Player → Player
update_resources res p = record p { resources = res }

pub record GameContext (V : Type 0) : Type 0 where
  pub client_id : ℕ
  pub player : Player
  pub net : NetworkClient V
  pub last_seq_by_type : Umap Text ℕ
  pub uuid : Text

-- `m_ctx{0, m_player, m_net}`
abbrev pub new_context : {V : Type 0} → NetworkClient V → GameContext V
new_context net = record {
  client_id = 0;
  player = new_player;
  net = net;
  last_seq_by_type = [];
  uuid = [];
}
