-- ===== src/Raw.antt =====
-- src/sockaddr/unix.rs: the wrappers of the socket calls. Each returns its `io::Result` and the
-- world after the call.
use binger_udp.Base.{ℕ, zero, ℤ, pos, negsuc, Bool, true, false, List}
use binger_udp.Error.{IoError, os, IoResult, ok, err}
use binger_udp.Net.{SocketAddr, Slice, Endian}
use binger_udp.Sockaddr.{encode_sockaddr, decode_sockaddr}
use binger_udp.Kernel.{Kernel, Fd, Level, OptName, Recvfrom}

-- `if ret >= 0 { Ok(ret as usize) } else { Err(last_os_error()) }`
abbrev pub result_of : ℤ → IoError → IoResult ℕ
result_of (pos n) e = ok n
result_of (negsuc n) e = err e

-- `if ret < 0 { Err(last_os_error()) } else { Ok(()) }`
abbrev pub unit_of : ℤ → IoError → IoResult (Unit {0})
unit_of (pos n) e = ok tt
unit_of (negsuc n) e = err e

abbrev pub is_zero : ℤ → Bool
is_zero (pos zero) = true
is_zero _ = false

module _ (k : Kernel) (e : Endian) where
  open k use {World}

  abbrev pub last : World → IoError
  last w = os (k.last_os_error w)

  unfoldable pub raw_sendto : Fd → Slice → SocketAddr → World → IoResult ℕ × World
  raw_sendto fd bytes addr w =
      let (storage, addr_len) = encode_sockaddr e addr in
      let (ret, w') = k.sendto fd bytes storage addr_len w in (result_of ret (last w'), w')

  unfoldable pub raw_send : Fd → Slice → World → IoResult ℕ × World
  raw_send fd bytes w = let (ret, w') = k.send fd bytes w in (result_of ret (last w'), w')

  abbrev pub recv_result : Recvfrom → IoError → IoResult (ℕ × SocketAddr)
  recv_result r x = elim r.ret [
    | pos n ↦ ok (n, decode_sockaddr e r.src r.addr_len)
    | negsuc n ↦ err x
  ]

  -- The buffer afterwards is the second part.
  unfoldable pub raw_recvfrom : Fd → List ℕ → World → IoResult (ℕ × SocketAddr) × List ℕ × World
  raw_recvfrom fd buf w = let (r, w') = k.recvfrom fd buf w in (recv_result r (last w'), r.buf, w')

  unfoldable pub is_connected : Fd → World → Bool × World
  is_connected fd w = let (ret, w') = k.getpeername fd w in (is_zero ret, w')

  unfoldable pub raw_getsockname : Fd → World → IoResult SocketAddr × World
  raw_getsockname fd w =
      let (ret, storage, len, w') = k.getsockname fd w in
      (elim ret [ pos n ↦ ok (decode_sockaddr e storage len) | negsuc n ↦ err (last w') ], w')

  unfoldable pub raw_connect : Fd → SocketAddr → World → IoResult (Unit {0}) × World
  raw_connect fd addr w =
      let (storage, addr_len) = encode_sockaddr e addr in
      let (ret, w') = k.connect fd storage addr_len w in (unit_of ret (last w'), w')

  -- `val` is the bit pattern of the `c_int`.
  unfoldable pub raw_setsockopt : Fd → Level → OptName → ℕ → World → IoResult (Unit {0}) × World
  raw_setsockopt fd level optname value w =
      let (ret, w') = k.setsockopt fd level optname value w in (unit_of ret (last w'), w')

  unfoldable pub raw_setsockopt_u32 : Fd → Level → OptName → ℕ → World → IoResult (Unit {0}) × World
  raw_setsockopt_u32 fd level optname value w =
      let (ret, w') = k.setsockopt fd level optname value w in (unit_of ret (last w'), w')

  unfoldable pub raw_getsockopt : Fd → Level → OptName → World → IoResult ℕ × World
  raw_getsockopt fd level optname w =
      let (ret, value, w') = k.getsockopt fd level optname w in
      (elim ret [ pos n ↦ ok value | negsuc n ↦ err (last w') ], w')
