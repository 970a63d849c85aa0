-- ===== src/Socket/Config.antt =====
-- src/socket.rs: `Config` and its builder, with the feature `metrics`.
use binger_udp.Base.{ℕ, Bool, false, Option, none, some}

pub record Config : Type 0 where
  pub batch_size : ℕ
  pub send_buf_size : Option ℕ
  pub recv_os_buf_size : Option ℕ
  pub adaptive_batching : Bool
  pub metrics_enabled : Bool

unfoldable pub default : Config
default = record {
  batch_size = 32;
  send_buf_size = none;
  recv_os_buf_size = none;
  adaptive_batching = false;
  metrics_enabled = false;
}

unfoldable pub new : Config
unfolding default
new = default

unfoldable pub with_batch_size : Config → ℕ → Config
with_batch_size c n = record c { batch_size = n }

unfoldable pub with_send_buf_size : Config → ℕ → Config
with_send_buf_size c n = record c { send_buf_size = some n }

unfoldable pub with_recv_os_buf_size : Config → ℕ → Config
with_recv_os_buf_size c n = record c { recv_os_buf_size = some n }

unfoldable pub with_adaptive_batching : Config → Bool → Config
with_adaptive_batching c enabled = record c { adaptive_batching = enabled }

unfoldable pub with_metrics : Config → Bool → Config
with_metrics c enabled = record c { metrics_enabled = enabled }
