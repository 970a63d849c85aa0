-- ===== src/Net.antt =====
-- The values of `std::net` and of memory that the library passes on: socket addresses, borrowed
-- byte slices and words in either byte order.
mod Words
unfoldable pub use Words.*
use binger_udp.Base.{ℕ, List}

-- `Ipv4Addr`, by its octets.
pub record Ipv4Addr : Type 0 where
  pub a : ℕ
  pub b : ℕ
  pub c : ℕ
  pub d : ℕ

-- `SocketAddr`. The octets of an `Ipv6Addr` are only moved.
pub data SocketAddr : Type 0 where
  v4 : (ip : Ipv4Addr) (port : ℕ) → SocketAddr
  v6 : (octets : List ℕ) (port flowinfo scope_id : ℕ) → SocketAddr

abbrev pub ipv4 : ℕ → ℕ → ℕ → ℕ → Ipv4Addr
ipv4 a b c d = record { a = a; b = b; c = c; d = d }

-- `SocketAddr::V4(SocketAddrV4::new(Ipv4Addr::UNSPECIFIED, 0))`
abbrev pub unspecified : SocketAddr
unspecified = SocketAddr.v4 (ipv4 0 0 0 0) 0

-- `&[u8]`: where the bytes lie and how many there are.
pub record Slice : Type 0 where
  pub ptr : ℕ
  pub len : ℕ

abbrev pub slice : ℕ → ℕ → Slice
slice p n = record { ptr = p; len = n }
