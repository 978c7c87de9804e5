-- ===== src/Resource.antt =====
-- common/Resource.hpp: the three counters of a player and the login data.
use net_pixeld.Prelude.{ℕ, Text}

-- Each counter is a `uint64_t`.
pub record Resources : Type 0 where
  pub wood : ℕ
  pub food : ℕ
  pub iron : ℕ

-- the member initializers
abbrev pub no_resources : Resources
no_resources = record { wood = 0; food = 0; iron = 0 }

-- No code uses this structure.
pub record LoginInfo : Type 0 where
  pub id : Text
  pub password : Text
