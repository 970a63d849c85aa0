-- ===== src/Metrics.antt =====
-- src/metrics.rs: ten counters of 64 bits. `fetch_add` wraps. The ratio is over floating-point
-- numbers, whose operations are a parameter.
pub mod History
use binger_udp.Base.{ℕ, ◌+◌, ◌%◌, ◌^◌, Bool, if◌then◌else◌}

pub record BingerMetrics : Type 0 where
  pub packets_sent : ℕ
  pub packets_received : ℕ
  pub batches_sent : ℕ
  pub batches_received : ℕ
  pub send_syscalls : ℕ
  pub recv_syscalls : ℕ
  pub send_errors : ℕ
  pub recv_errors : ℕ
  pub send_would_block : ℕ
  pub recv_would_block : ℕ

unfoldable pub default : BingerMetrics
default = record {
  packets_sent = 0;
  packets_received = 0;
  batches_sent = 0;
  batches_received = 0;
  send_syscalls = 0;
  recv_syscalls = 0;
  send_errors = 0;
  recv_errors = 0;
  send_would_block = 0;
  recv_would_block = 0;
}

-- `AtomicU64::fetch_add`
abbrev pub fetch_add : ℕ → ℕ → ℕ
fetch_add x n = (x + n) % 2 ^ 64

unfoldable pub inc_packets_sent : BingerMetrics → ℕ → BingerMetrics
inc_packets_sent m n = record m { packets_sent = fetch_add m.packets_sent n }

unfoldable pub inc_packets_received : BingerMetrics → ℕ → BingerMetrics
inc_packets_received m n = record m { packets_received = fetch_add m.packets_received n }

unfoldable pub inc_batches_sent : BingerMetrics → BingerMetrics
inc_batches_sent m = record m { batches_sent = fetch_add m.batches_sent 1 }

unfoldable pub inc_batches_received : BingerMetrics → BingerMetrics
inc_batches_received m = record m { batches_received = fetch_add m.batches_received 1 }

unfoldable pub inc_send_syscalls : BingerMetrics → BingerMetrics
inc_send_syscalls m = record m { send_syscalls = fetch_add m.send_syscalls 1 }

unfoldable pub inc_recv_syscalls : BingerMetrics → BingerMetrics
inc_recv_syscalls m = record m { recv_syscalls = fetch_add m.recv_syscalls 1 }

unfoldable pub inc_send_errors : BingerMetrics → BingerMetrics
inc_send_errors m = record m { send_errors = fetch_add m.send_errors 1 }

unfoldable pub inc_recv_errors : BingerMetrics → BingerMetrics
inc_recv_errors m = record m { recv_errors = fetch_add m.recv_errors 1 }

unfoldable pub inc_send_would_block : BingerMetrics → BingerMetrics
inc_send_would_block m = record m { send_would_block = fetch_add m.send_would_block 1 }

unfoldable pub inc_recv_would_block : BingerMetrics → BingerMetrics
inc_recv_would_block m = record m { recv_would_block = fetch_add m.recv_would_block 1 }

unfoldable pub reset : BingerMetrics → BingerMetrics
reset m = record m {
  packets_sent = 0;
  packets_received = 0;
  batches_sent = 0;
  batches_received = 0;
  send_syscalls = 0;
  recv_syscalls = 0;
  send_errors = 0;
  recv_errors = 0;
  send_would_block = 0;
  recv_would_block = 0;
}

-- `f64`: what the ratio uses of it.
pub record Float : Type 1 where
  pub F64 : Type 0
  pub of_u64 : ℕ → F64
  pub div : F64 → F64 → F64
  pub is_positive : F64 → Bool
  pub zero_f64 : F64

module _ (f : Float) where
  open f use {F64, of_u64, div, is_positive, zero_f64}

  unfoldable pub syscall_efficiency_ratio : BingerMetrics → F64
  syscall_efficiency_ratio m =
      let pkt = of_u64 m.packets_sent in
      let sc = of_u64 m.send_syscalls in if is_positive sc then div pkt sc else zero_f64

  pub record MetricsSnapshot : Type 0 where
    pub packets_sent : ℕ
    pub packets_received : ℕ
    pub batches_sent : ℕ
    pub batches_received : ℕ
    pub send_syscalls : ℕ
    pub recv_syscalls : ℕ
    pub send_errors : ℕ
    pub recv_errors : ℕ
    pub send_would_block : ℕ
    pub recv_would_block : ℕ
    pub syscall_efficiency : F64

  unfoldable pub snapshot : BingerMetrics → MetricsSnapshot
  unfolding syscall_efficiency_ratio
  snapshot m = record {
    packets_sent = m.packets_sent;
    packets_received = m.packets_received;
    batches_sent = m.batches_sent;
    batches_received = m.batches_received;
    send_syscalls = m.send_syscalls;
    recv_syscalls = m.recv_syscalls;
    send_errors = m.send_errors;
    recv_errors = m.recv_errors;
    send_would_block = m.send_would_block;
    recv_would_block = m.recv_would_block;
    syscall_efficiency = syscall_efficiency_ratio m;
  }
