-- ===== src/Forwards.antt =====
-- internal/api/forward_handler.go and forward_host.go: port forwards, of a session and of a host.
pub mod Registry
pub mod Socks
pub mod Supervised
pub mod Hosts
use gossh.Prelude.{ℕ, Bool, String, List, Option, none, some, ◌=s◌}

-- ForwardEntry; `handle` stands for its cancel function.
pub record ForwardEntry : Type 0 where
  pub handle : ℕ
  pub id : String
  pub kind : String
  pub bind : String
  pub target : String
