-- ===== src/Sockaddr/RoundTrip.antt =====
-- src/sockaddr/unix.rs: encoding and decoding are inverse, and the encoded form is in network
-- order on every host.
use mathlib.Core.Path.{ap₂}
use binger_udp.Base.{ℕ, ◌+◌, ◌*◌, ◌/◌, ◌%◌, ◌<◌, ◌≡◌, refl, ap, List, [], ◌∷◌, arith, pos_ne_zero}
use binger_udp.Net.{
  SocketAddr, ipv4, Endian, u16_be, u32_be, u32_from_ne, u16_be-u16_be, u32_be-from_ne,
}
use binger_udp.Sockaddr.{
  Storage, size_of_in, size_of_in6, encode_sockaddr, ipv4_from_u32, decode_sockaddr, decode_family,
}

-- An address whose parts lie in the ranges of their Rust types.
abbrev pub InRange : SocketAddr → Type 0
InRange (SocketAddr.v4 ip port) =
    (ip.a < 256) × (ip.b < 256) × (ip.c < 256) × (ip.d < 256) × (port < 65536)
InRange (SocketAddr.v6 octets port flowinfo scope_id) = port < 65536

ipv4_path : {a b c d w x y z : ℕ} → a ≡ w → b ≡ x → c ≡ y → d ≡ z → ipv4 a b c d ≡ ipv4 w x y z
ipv4_path p q r s = cc

ipv4_from_u32_lem :
    (a b c d : ℕ)
    → a < 256
    → b < 256
    → c < 256
    → d < 256
    → ipv4_from_u32 (a * 16777216 + b * 65536 + c * 256 + d) ≡ ipv4 a b c d
unfolding ipv4_from_u32
ipv4_from_u32_lem a b c d ha hb hc hd =
    ipv4_path (omega arith) (omega arith) (omega arith) (omega arith)

-- On a host of either byte order, decoding what `encode_sockaddr` wrote, at the length that it
-- returned, gives the address back, for every address in the range of its type.
pub decode-encode :
    (e : Endian) (addr : SocketAddr)
    → InRange addr
    → let (storage, len) = encode_sockaddr e addr in decode_sockaddr e storage len ≡ addr
unfolding encode_sockaddr decode_sockaddr decode_family
decode-encode e (SocketAddr.v4 ip port) h =
    ap₂ SocketAddr.v4
      (rw (u32_be-from_ne e ip.a ip.b ip.c ip.d h.0 h.1 h.2 h.3)
        (ipv4_from_u32_lem ip.a ip.b ip.c ip.d h.0 h.1 h.2 h.3))
      (u16_be-u16_be e port h.4)
decode-encode e (SocketAddr.v6 octets port flowinfo scope_id) h =
    ap (λ p. SocketAddr.v6 octets p flowinfo scope_id) (u16_be-u16_be e port h)

-- The bytes of a word as they lie in memory.
abbrev pub ne_bytes16 : Endian → ℕ → List ℕ
ne_bytes16 Endian.little x = x % 256 ∷ x / 256 % 256 ∷ []
ne_bytes16 Endian.big x = x / 256 % 256 ∷ x % 256 ∷ []

abbrev pub ne_bytes32 : Endian → ℕ → List ℕ
ne_bytes32 Endian.little x = x % 256 ∷ x / 256 % 256 ∷ x / 65536 % 256 ∷ x / 16777216 % 256 ∷ []
ne_bytes32 Endian.big x = x / 16777216 % 256 ∷ x / 65536 % 256 ∷ x / 256 % 256 ∷ x % 256 ∷ []

-- The port and address bytes of the socket address structure, as they lie in memory.
abbrev wire_bytes : Endian → Storage → List ℕ × List ℕ
wire_bytes e (Storage.sockaddr_in sin_port s_addr) = (ne_bytes16 e sin_port, ne_bytes32 e s_addr)
wire_bytes e (Storage.sockaddr_in6 sin6_port flowinfo octets scope_id) =
    (ne_bytes16 e sin6_port, octets)
wire_bytes e (Storage.sockaddr_other family) = ([], [])

-- The port with its high byte first, and the octets in their order.
abbrev network_order : SocketAddr → List ℕ × List ℕ
network_order (SocketAddr.v4 ip port) =
    (port / 256 ∷ port % 256 ∷ [], ip.a ∷ ip.b ∷ ip.c ∷ ip.d ∷ [])
network_order (SocketAddr.v6 octets port flowinfo scope_id) = (port / 256 ∷ port % 256 ∷ [], octets)

ne_bytes16-be :
    (e : Endian) (x : ℕ) → x < 65536 → ne_bytes16 e (u16_be e x) ≡ x / 256 ∷ x % 256 ∷ []
unfolding u16_be
ne_bytes16-be Endian.little x h = ap₂ (λ a b. a ∷ b ∷ []) (omega arith) (omega arith)
ne_bytes16-be Endian.big x h = ap₂ (λ a b. a ∷ b ∷ []) (omega arith) refl

cons₄ :
    {a b c d w x y z : ℕ} → a ≡ w → b ≡ x → c ≡ y → d ≡ z → a ∷ b ∷ c ∷ d ∷ [] ≡ w ∷ x ∷ y ∷ z ∷ []
cons₄ p q r s = cc

ne_bytes32-from_ne :
    (e : Endian) (a b c d : ℕ)
    → a < 256
    → b < 256
    → c < 256
    → d < 256
    → ne_bytes32 e (u32_from_ne e a b c d) ≡ a ∷ b ∷ c ∷ d ∷ []
unfolding u32_from_ne
ne_bytes32-from_ne Endian.little a b c d ha hb hc hd =
    cons₄ (omega arith) (omega arith) (omega arith) (omega arith)
ne_bytes32-from_ne Endian.big a b c d ha hb hc hd =
    cons₄ (omega arith) (omega arith) (omega arith) (omega arith)

-- On a host of either byte order the port and the address that `encode_sockaddr` writes lie in
-- memory in network order, for every address in the range of its type.
encode-network_order :
    (e : Endian) (addr : SocketAddr)
    → InRange addr
    → wire_bytes e (encode_sockaddr e addr).0 ≡ network_order addr
unfolding encode_sockaddr
encode-network_order e (SocketAddr.v4 ip port) h =
    ap₂ (λ a b. (a, b)) (ne_bytes16-be e port h.4)
      (ne_bytes32-from_ne e ip.a ip.b ip.c ip.d h.0 h.1 h.2 h.3)
encode-network_order e (SocketAddr.v6 octets port flowinfo scope_id) h =
    ap (λ a. (a, octets)) (ne_bytes16-be e port h)

-- A socket address structure of the two families that the library knows, its words in range.
abbrev pub IsInet : Storage → Type 0
IsInet (Storage.sockaddr_in sin_port s_addr) = (sin_port < 65536) × (s_addr < 4294967296)
IsInet (Storage.sockaddr_in6 sin6_port flowinfo octets scope_id) = sin6_port < 65536
IsInet (Storage.sockaddr_other family) = ⊥

abbrev pub size_of : Storage → ℕ
size_of (Storage.sockaddr_in sin_port s_addr) = size_of_in
size_of (Storage.sockaddr_in6 sin6_port flowinfo octets scope_id) = size_of_in6
size_of (Storage.sockaddr_other family) = 0

from_ne-u32_be :
    (e : Endian) (x : ℕ)
    → x < 4294967296
    → let ip = ipv4_from_u32 (u32_be e x) in u32_from_ne e ip.a ip.b ip.c ip.d ≡ x
unfolding u32_be u32_from_ne ipv4_from_u32
from_ne-u32_be Endian.little x h = omega arith
from_ne-u32_be Endian.big x h = omega arith

-- On a host of either byte order, encoding the address that was decoded from an AF_INET or
-- AF_INET6 structure at a length other than zero gives the structure and its size back.
encode-decode :
    (e : Endian) (storage : Storage) (len : ℕ)
    → IsInet storage
    → 0 < len
    → encode_sockaddr e (decode_sockaddr e storage len) ≡ (storage, size_of storage)
unfolding encode_sockaddr decode_sockaddr decode_family
encode-decode e (Storage.sockaddr_in sin_port s_addr) len h l = rw (pos_ne_zero len l) (
    ap₂ (λ p a. (Storage.sockaddr_in p a, size_of_in)) (u16_be-u16_be e sin_port h.0)
      (from_ne-u32_be e s_addr h.1))
encode-decode e (Storage.sockaddr_in6 sin6_port flowinfo octets scope_id) len h l =
    rw (pos_ne_zero len l) (
      ap (λ p. (Storage.sockaddr_in6 p flowinfo octets scope_id, size_of_in6))
        (u16_be-u16_be e sin6_port h))
encode-decode e (Storage.sockaddr_other family) len h l = absurd h
