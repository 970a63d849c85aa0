-- ===== src/Socket/Options.antt =====
-- src/socket.rs: `connect`, `local_addr`, the socket options and `capabilities`, on Unix with all
-- features. A `u32` passes as a `c_int` and back with its bits unchanged.
use binger_udp.Base.{ℕ, Bool, true, false}
use binger_udp.Error.{IoResult}
use binger_udp.Net.{SocketAddr, Endian}
use binger_udp.Kernel.{
  Kernel, Fd, ip_ttl, udp_segment, so_max_pacing_rate, so_busy_poll, so_timestampns, ip_pktinfo,
  ipv6_recvpktinfo, sol_socket, ipproto_ip, ipproto_ipv6, ipproto_udp, OptName,
}
use binger_udp.Raw.{
  raw_connect, raw_getsockname, raw_getsockopt, raw_setsockopt, raw_setsockopt_u32,
}
use binger_udp.Socket.{BingerUdp}
use binger_udp.Socket.Capabilities.{Target, Features, PlatformCaps, platform_capabilities}
use binger_udp.Socket.Setup.{then_io}

-- `i32::from(enabled)`
abbrev pub of_bool : Bool → ℕ
of_bool true = 1
of_bool false = 0

unfoldable pub as_raw_fd : BingerUdp → Fd
as_raw_fd s = s.fd

unfoldable pub capabilities : Target → Features → BingerUdp → PlatformCaps
unfolding platform_capabilities
capabilities target f s = platform_capabilities target f

module _ (k : Kernel) (e : Endian) where
  open k use {World}

  abbrev pub Outcome : Type 0
  Outcome = IoResult (Unit {0}) × World

  unfoldable pub connect : BingerUdp → SocketAddr → World → Outcome
  connect s addr w = raw_connect k e s.fd addr w

  unfoldable pub local_addr : BingerUdp → World → IoResult SocketAddr × World
  local_addr s w = raw_getsockname k e s.fd w

  unfoldable pub ttl : BingerUdp → World → IoResult ℕ × World
  ttl s w = raw_getsockopt k e s.fd ipproto_ip ip_ttl w

  unfoldable pub set_ttl : BingerUdp → ℕ → World → Outcome
  set_ttl s n w = raw_setsockopt k e s.fd ipproto_ip ip_ttl n w

  unfoldable pub set_gso : BingerUdp → Bool → World → Outcome
  set_gso s enabled w = raw_setsockopt k e s.fd ipproto_udp udp_segment (of_bool enabled) w

  unfoldable pub set_gro : BingerUdp → Bool → World → Outcome
  set_gro s enabled w = raw_setsockopt k e s.fd ipproto_udp OptName.udp_gro (of_bool enabled) w

  unfoldable pub set_pacing_rate : BingerUdp → ℕ → World → Outcome
  set_pacing_rate s bytes_per_sec w =
      raw_setsockopt_u32 k e s.fd sol_socket so_max_pacing_rate bytes_per_sec w

  unfoldable pub set_busy_poll : BingerUdp → ℕ → World → Outcome
  set_busy_poll s usecs w = raw_setsockopt k e s.fd sol_socket so_busy_poll usecs w

  unfoldable pub enable_timestamping : BingerUdp → Bool → World → Outcome
  enable_timestamping s enabled w =
      raw_setsockopt k e s.fd sol_socket so_timestampns (of_bool enabled) w

  unfoldable pub enable_pktinfo : BingerUdp → Bool → World → Outcome
  enable_pktinfo s enabled w =
      then_io (raw_setsockopt k e s.fd ipproto_ip ip_pktinfo (of_bool enabled) w)
        λ w₁. raw_setsockopt k e s.fd ipproto_ipv6 ipv6_recvpktinfo (of_bool enabled) w₁
