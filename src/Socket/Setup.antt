-- ===== src/Socket/Setup.antt =====
-- src/socket.rs: `BingerUdp::from_std` on Unix, with the features `tokio` and `metrics`.
use binger_udp.Base.{ℕ, ◌%◌, ◌^◌, Bool, true, Option, none, some, if◌then◌else◌}
use binger_udp.Error.{IoResult, ok, err}
use binger_udp.Net.{Endian}
use binger_udp.Kernel.{Kernel, Fd, OptName, so_sndbuf, so_rcvbuf, sol_socket}
use binger_udp.Raw.{raw_setsockopt}
use binger_udp.Adaptive
use binger_udp.Adaptive.{AdaptiveState}
use binger_udp.Metrics
use binger_udp.Socket.{BingerUdp, mutex}
use binger_udp.Socket.Config.{Config}

-- What std and tokio do, and the two readings of the clock for the two adaptive states.
pub record Runtime (W : Type 0) : Type 0 where
  pub set_nonblocking : Fd → Bool → W → IoResult (Unit {0}) × W
  pub tokio_from_std : Fd → W → IoResult (Unit {0}) × W
  pub now : W → ℕ
  pub later : W → ℕ

-- `step?; rest`
abbrev pub then_io :
    {W A : Type 0} → IoResult (Unit {0}) × W → (W → IoResult A × W) → IoResult A × W
then_io (ok _, w) next = next w
then_io (err x, w) next = (err x, w)

module _ (k : Kernel) (e : Endian) (rt : Runtime k.World) where
  open k use {World}

  -- `if let Some(size) = …`: the size is cut to the bits of a `c_int`.
  abbrev pub set_buffer : OptName → Option ℕ → Fd → World → IoResult (Unit {0}) × World
  set_buffer opt none fd w = (ok tt, w)
  set_buffer opt (some size) fd w = raw_setsockopt k e fd sol_socket opt (size % 2 ^ 32) w

  abbrev pub opened : Fd → Config → World → BingerUdp
  opened fd c w = record {
    fd = fd;
    metrics = if c.metrics_enabled then some Metrics.default else none;
    adaptive_send =
        if c.adaptive_batching then some (mutex (Adaptive.new (rt.now w) c.batch_size)) else none;
    adaptive_recv =
        if c.adaptive_batching then some (mutex (Adaptive.new (rt.later w) c.batch_size)) else none;
  }

  unfoldable pub from_std : Fd → Config → World → IoResult BingerUdp × World
  from_std fd c w = then_io (rt.set_nonblocking fd true w) λ w₁.
      then_io (set_buffer so_sndbuf c.send_buf_size fd w₁) λ w₂.
        then_io (set_buffer so_rcvbuf c.recv_os_buf_size fd w₂)
          λ w₃. then_io (rt.tokio_from_std fd w₃) λ w₄. (ok (opened fd c w₄), w₄)
