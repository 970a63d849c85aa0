-- ===== src/Sockaddr.antt =====
-- src/sockaddr/unix.rs: the translation between `SocketAddr` and `sockaddr_storage`. The raw
-- system calls are in `Raw`.
pub mod RoundTrip
use binger_udp.Base.{ℕ, ◌/◌, ◌%◌, List, ◌==◌, if◌then◌else◌}
use binger_udp.Net.{SocketAddr, Ipv4Addr, ipv4, unspecified, Endian, u16_be, u32_be, u32_from_ne}

-- `sockaddr_storage`, by the structure that its `ss_family` announces: AF_INET, AF_INET6 or
-- another family (0 in a zeroed storage).
pub data Storage : Type 0 where
  sockaddr_in : (sin_port s_addr : ℕ) → Storage
  sockaddr_in6 : (sin6_port sin6_flowinfo : ℕ) (s6_addr : List ℕ) (sin6_scope_id : ℕ) → Storage
  sockaddr_other : (ss_family : ℕ) → Storage

abbrev pub zeroed : Storage
zeroed = Storage.sockaddr_other 0

-- `mem::size_of` of `sockaddr_in`, `sockaddr_in6` and `sockaddr_storage`.
abbrev pub size_of_in : ℕ
size_of_in = 16

abbrev pub size_of_in6 : ℕ
size_of_in6 = 28

abbrev pub size_of_storage : ℕ
size_of_storage = 128

-- The storage that the call writes, and the length that it returns.
unfoldable pub encode_sockaddr : Endian → SocketAddr → Storage × ℕ
encode_sockaddr e (SocketAddr.v4 ip port) =
    (Storage.sockaddr_in (u16_be e port) (u32_from_ne e ip.a ip.b ip.c ip.d), size_of_in)
encode_sockaddr e (SocketAddr.v6 octets port flowinfo scope_id) =
    (Storage.sockaddr_in6 (u16_be e port) flowinfo octets scope_id, size_of_in6)

-- `Ipv4Addr::from(u32)`: the most significant byte first.
unfoldable pub ipv4_from_u32 : ℕ → Ipv4Addr
ipv4_from_u32 x = ipv4 (x / 16777216 % 256) (x / 65536 % 256) (x / 256 % 256) (x % 256)

unfoldable pub decode_family : Endian → Storage → SocketAddr
decode_family e (Storage.sockaddr_in sin_port s_addr) =
    SocketAddr.v4 (ipv4_from_u32 (u32_be e s_addr)) (u16_be e sin_port)
decode_family e (Storage.sockaddr_in6 sin6_port flowinfo octets scope_id) =
    SocketAddr.v6 octets (u16_be e sin6_port) flowinfo scope_id
decode_family e (Storage.sockaddr_other ss_family) = unspecified

unfoldable pub decode_sockaddr : Endian → Storage → ℕ → SocketAddr
unfolding decode_family
decode_sockaddr e storage len = if len == 0 then unspecified else decode_family e storage
