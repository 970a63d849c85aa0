-- ===== src/Winsock.antt =====
-- src/sockaddr/windows_impl.rs: addresses and the wrappers of the socket calls on Windows, whose
-- structures have the fields of the Unix ones. A call that announces success returns 0, or a count
-- that is not negative; lengths are passed as an `i32`.
pub mod Agreement
use binger_udp.Base.{
  ℕ, zero, ◌%◌, ◌^◌, ℤ, pos, negsuc, Bool, true, false, List, ◌++◌, take, drop, length, ◌==◌,
  if◌then◌else◌,
}
use binger_udp.Error.{IoError, IoResult, ok, err}
use binger_udp.Net.{SocketAddr, Slice, slice, unspecified, Endian, u16_be, u32_be, u32_from_ne}
use binger_udp.Sockaddr.{Storage, size_of_in, size_of_in6, ipv4_from_u32}
use binger_udp.Kernel.{Kernel, Fd, Level, OptName, Recvfrom}
use binger_udp.Raw.{last, is_zero}

-- `buf.len() as i32`, by its bits; a negative length is the call's to refuse.
abbrev pub as_i32 : Slice → Slice
as_i32 s = slice s.ptr (s.len % 2 ^ 32)

-- As much of a buffer as `buf.len() as i32` says, by its bits, and the rest, which no call writes.
abbrev pub announced : List ℕ → List ℕ
announced buf = take (length buf % 2 ^ 32) buf

abbrev pub unannounced : List ℕ → List ℕ
unannounced buf = drop (length buf % 2 ^ 32) buf

abbrev pub unit_if_zero : ℤ → IoError → IoResult (Unit {0})
unit_if_zero (pos zero) x = ok tt
unit_if_zero _ x = err x

abbrev pub count_of : ℤ → IoError → IoResult ℕ
count_of (pos n) x = ok n
count_of (negsuc n) x = err x

abbrev pub name_if_zero : ℤ → SocketAddr → IoError → IoResult SocketAddr
name_if_zero (pos zero) a x = ok a
name_if_zero _ a x = err x

abbrev pub value_if_zero : ℤ → ℕ → IoError → IoResult ℕ
value_if_zero (pos zero) n x = ok n
value_if_zero _ n x = err x

module _ (e : Endian) where
  unfoldable pub encode_sockaddr : SocketAddr → Storage × ℕ
  encode_sockaddr (SocketAddr.v4 ip port) =
      (Storage.sockaddr_in (u16_be e port) (u32_from_ne e ip.a ip.b ip.c ip.d), size_of_in)
  encode_sockaddr (SocketAddr.v6 octets port flowinfo scope_id) =
      (Storage.sockaddr_in6 (u16_be e port) flowinfo octets scope_id, size_of_in6)

  abbrev pub by_family : Storage → SocketAddr
  by_family (Storage.sockaddr_in port s_addr) =
      SocketAddr.v4 (ipv4_from_u32 (u32_be e s_addr)) (u16_be e port)
  by_family (Storage.sockaddr_in6 port flowinfo octets scope_id) =
      SocketAddr.v6 octets (u16_be e port) flowinfo scope_id
  by_family (Storage.sockaddr_other family) = unspecified

  unfoldable pub decode_sockaddr : Storage → ℕ → SocketAddr
  decode_sockaddr storage len = if len == 0 then unspecified else by_family storage

module _ (k : Kernel) (e : Endian) where
  open k use {World}

  unfoldable pub is_connected : Fd → World → Bool × World
  is_connected fd w = let (ret, w') = k.getpeername fd w in (is_zero ret, w')

  unfoldable pub raw_getsockname : Fd → World → IoResult SocketAddr × World
  unfolding decode_sockaddr
  raw_getsockname fd w =
      let (ret, storage, len, w') = k.getsockname fd w in
      (name_if_zero ret (decode_sockaddr e storage len) (last k e w'), w')

  unfoldable pub raw_connect : Fd → SocketAddr → World → IoResult (Unit {0}) × World
  unfolding encode_sockaddr
  raw_connect fd addr w =
      let (storage, addr_len) = encode_sockaddr e addr in
      let (ret, w') = k.connect fd storage addr_len w in (unit_if_zero ret (last k e w'), w')

  unfoldable pub raw_setsockopt : Fd → Level → OptName → ℕ → World → IoResult (Unit {0}) × World
  raw_setsockopt fd level optname value w =
      let (ret, w') = k.setsockopt fd level optname value w in (unit_if_zero ret (last k e w'), w')

  unfoldable pub raw_sendto : Fd → Slice → SocketAddr → World → IoResult ℕ × World
  unfolding encode_sockaddr
  raw_sendto fd bytes addr w =
      let (storage, addr_len) = encode_sockaddr e addr in
      let (ret, w') = k.sendto fd (as_i32 bytes) storage addr_len w in
      (count_of ret (last k e w'), w')

  unfoldable pub raw_send : Fd → Slice → World → IoResult ℕ × World
  raw_send fd bytes w =
      let (ret, w') = k.send fd (as_i32 bytes) w in (count_of ret (last k e w'), w')

  abbrev pub source_of : Recvfrom → IoError → IoResult (ℕ × SocketAddr)
  unfolding decode_sockaddr
  source_of r x = elim r.ret [
    | pos n ↦ ok (n, decode_sockaddr e r.src r.addr_len)
    | negsuc n ↦ err x
  ]

  unfoldable pub raw_recvfrom : Fd → List ℕ → World → IoResult (ℕ × SocketAddr) × List ℕ × World
  unfolding source_of
  raw_recvfrom fd buf w =
      let (r, w') = k.recvfrom fd (announced buf) w in
      (source_of r (last k e w'), r.buf ++ unannounced buf, w')

  unfoldable pub raw_getsockopt : Fd → Level → OptName → World → IoResult ℕ × World
  raw_getsockopt fd level optname w =
      let (ret, value, w') = k.getsockopt fd level optname w in
      (value_if_zero ret value (last k e w'), w')
