-- ===== src/Winsock/Agreement.antt =====
-- src/sockaddr/windows_impl.rs and src/sockaddr/unix.rs: the same wrappers, on calls that follow the
-- convention of both systems.
use binger_udp.Base.{
  ℕ, zero, suc, ℤ, pos, negsuc, ◌%◌, ◌^◌, ◌<◌, ◌≡◌, refl, ◌∙◌, ap, List, [], length, take_all,
  drop_all, append_nil, arith,
}
use mathlib.Core.Path.{ap₂}
use binger_udp.Error.{IoError, IoResult, ok, err}
use binger_udp.Net.{SocketAddr, Slice, slice, Endian}
use binger_udp.Sockaddr.{Storage}
use binger_udp.Sockaddr
use binger_udp.Kernel.{Kernel, Fd, Level, OptName}
use binger_udp.Raw
use binger_udp.Raw.{result_of, unit_of, last}
use binger_udp.Winsock.{
  encode_sockaddr, decode_sockaddr, raw_getsockname, raw_connect, raw_setsockopt, raw_sendto,
  raw_send, raw_recvfrom, raw_getsockopt, source_of, unit_if_zero, count_of, name_if_zero,
  value_if_zero, announced, unannounced,
}

-- A call that returns no count returns 0 where it does not fail.
abbrev pub IsZeroOrFailed : ℤ → Type 0
IsZeroOrFailed (pos n) = n ≡ 0
IsZeroOrFailed (negsuc n) = Unit {0}

pub encode-encode :
    (e : Endian) (a : SocketAddr) → encode_sockaddr e a ≡ Sockaddr.encode_sockaddr e a
unfolding encode_sockaddr Sockaddr.encode_sockaddr
encode-encode e (SocketAddr.v4 ip port) = refl
encode-encode e (SocketAddr.v6 octets port flowinfo scope_id) = refl

pub decode-decode :
    (e : Endian) (s : Storage) (n : ℕ) → decode_sockaddr e s n ≡ Sockaddr.decode_sockaddr e s n
unfolding decode_sockaddr Sockaddr.decode_sockaddr Sockaddr.decode_family
decode-decode e (Storage.sockaddr_in port s_addr) n = refl
decode-decode e (Storage.sockaddr_in6 port flowinfo octets scope_id) n = refl
decode-decode e (Storage.sockaddr_other family) n = refl

unit_agrees : (ret : ℤ) (x : IoError) → IsZeroOrFailed ret → unit_if_zero ret x ≡ unit_of ret x
unit_agrees (pos zero) x h = refl
unit_agrees (pos (suc n)) x h = absurd (omega arith)
unit_agrees (negsuc n) x h = refl

count_agrees : (ret : ℤ) (x : IoError) → count_of ret x ≡ result_of ret x
count_agrees (pos n) x = refl
count_agrees (negsuc n) x = refl

value_agrees :
    (ret : ℤ) (n : ℕ) (x : IoError)
    → IsZeroOrFailed ret
    → value_if_zero ret n x ≡ elim ret as (λ _. IoResult ℕ) [ pos m ↦ ok n | negsuc m ↦ err x ]
value_agrees (pos zero) n x h = refl
value_agrees (pos (suc m)) n x h = absurd (omega arith)
value_agrees (negsuc m) n x h = refl

name_agrees :
    (ret : ℤ) (a : SocketAddr) (x : IoError)
    → IsZeroOrFailed ret
    → name_if_zero ret a x
      ≡ elim ret as (λ _. IoResult SocketAddr) [ pos m ↦ ok a | negsuc m ↦ err x ]
name_agrees (pos zero) a x h = refl
name_agrees (pos (suc m)) a x h = absurd (omega arith)
name_agrees (negsuc m) a x h = refl

as_i32_small : (s : Slice) → s.len < 2 ^ 31 → slice s.ptr (s.len % 2 ^ 32) ≡ s
as_i32_small s h = ap (slice s.ptr) (omega arith)

-- A buffer shorter than 2 ^ 32 bytes is announced whole.
pub announced_small : (buf : List ℕ) → length buf < 2 ^ 32 → announced buf ≡ buf
announced_small buf h = take_all buf (length buf % 2 ^ 32) (omega arith)

pub unannounced_small : (buf : List ℕ) → length buf < 2 ^ 32 → unannounced buf ≡ []
unannounced_small buf h = drop_all buf (length buf % 2 ^ 32) (omega arith)

-- The calls that return no count return 0 where they succeed, as both systems document them.
pub record IsConventional (k : Kernel) : Type 0 where
  pub getsockname_zero : (fd : Fd) (w : k.World) → IsZeroOrFailed (k.getsockname fd w).0
  pub connect_zero :
      (fd : Fd) (s : Storage) (n : ℕ) (w : k.World) → IsZeroOrFailed (k.connect fd s n w).0
  pub setsockopt_zero :
      (fd : Fd) (l : Level) (o : OptName) (n : ℕ) (w : k.World)
      → IsZeroOrFailed (k.setsockopt fd l o n w).0
  pub getsockopt_zero :
      (fd : Fd) (l : Level) (o : OptName) (w : k.World) → IsZeroOrFailed (k.getsockopt fd l o w).0

module _ (k : Kernel) (e : Endian) (law : IsConventional k) where
  open k use {World}

  connect_agrees :
      (fd : Fd) (a : SocketAddr) (w : World) → raw_connect k e fd a w ≡ Raw.raw_connect k e fd a w
  unfolding raw_connect Raw.raw_connect
  connect_agrees fd a w = rw (encode-encode e a, unit_agrees _ _ (law.connect_zero fd _ _ w)) refl

  setsockopt_agrees :
      (fd : Fd) (l : Level) (o : OptName) (n : ℕ) (w : World)
      → raw_setsockopt k e fd l o n w ≡ Raw.raw_setsockopt k e fd l o n w
  unfolding raw_setsockopt Raw.raw_setsockopt
  setsockopt_agrees fd l o n w = rw (unit_agrees _ _ (law.setsockopt_zero fd l o n w)) refl

  sendto_agrees :
      (fd : Fd) (s : Slice) (a : SocketAddr) (w : World)
      → s.len < 2 ^ 31
      → raw_sendto k e fd s a w ≡ Raw.raw_sendto k e fd s a w
  unfolding raw_sendto Raw.raw_sendto
  sendto_agrees fd s a w h = rw (encode-encode e a, as_i32_small s h, count_agrees _ _) refl

  send_agrees :
      (fd : Fd) (s : Slice) (w : World)
      → s.len < 2 ^ 31
      → raw_send k e fd s w ≡ Raw.raw_send k e fd s w
  unfolding raw_send Raw.raw_send
  send_agrees fd s w h = rw (as_i32_small s h, count_agrees _ _) refl

  getsockname_agrees :
      (fd : Fd) (w : World) → raw_getsockname k e fd w ≡ Raw.raw_getsockname k e fd w
  unfolding raw_getsockname Raw.raw_getsockname
  getsockname_agrees fd w =
      let (ret, storage, len, w') = k.getsockname fd w in
      ap (λ r. (r, w'))
        (ap (λ a. name_if_zero ret a (last k e w')) (decode-decode e storage len)
          ∙ name_agrees ret _ _ (law.getsockname_zero fd w))

  getsockopt_agrees :
      (fd : Fd) (l : Level) (o : OptName) (w : World)
      → raw_getsockopt k e fd l o w ≡ Raw.raw_getsockopt k e fd l o w
  unfolding raw_getsockopt Raw.raw_getsockopt
  getsockopt_agrees fd l o w =
      let (ret, value, w') = k.getsockopt fd l o w in
      ap (λ r. (r, w')) (value_agrees ret value (last k e w') (law.getsockopt_zero fd l o w))

  recvfrom_agrees :
      (fd : Fd) (buf : List ℕ) (w : World)
      → length buf < 2 ^ 31
      → raw_recvfrom k e fd buf w ≡ Raw.raw_recvfrom k e fd buf w
  unfolding raw_recvfrom Raw.raw_recvfrom source_of
  recvfrom_agrees fd buf w h =
      rw (announced_small buf (omega arith), unannounced_small buf (omega arith))
        (let (r, w') = k.recvfrom fd buf w in
          ap₂
            (λ a (l : List ℕ). (
              elim r.ret as (λ _. IoResult (ℕ × SocketAddr)) [
                | pos n ↦ ok (n, a)
                | negsuc n ↦ err (last k e w')
              ],
              l,
              w',
            ))
            (decode-decode e r.src r.addr_len) (append_nil r.buf))

  -- Over system calls that return 0 where they succeed, the Windows wrappers do what the Unix
  -- wrappers do, on every argument, for data and buffers shorter than 2 ^ 31 bytes: they
  -- make the same calls,
  -- with the same addresses, and give the same results and errors.
  pub windows_agrees :
      (fd : Fd) (bytes : Slice) (buf : List ℕ) (a : SocketAddr) (l : Level) (o : OptName) (n : ℕ)
      (w : World)
      → bytes.len < 2 ^ 31
      → length buf < 2 ^ 31
      → (raw_sendto k e fd bytes a w ≡ Raw.raw_sendto k e fd bytes a w)
        × (raw_send k e fd bytes w ≡ Raw.raw_send k e fd bytes w)
        × (raw_recvfrom k e fd buf w ≡ Raw.raw_recvfrom k e fd buf w)
        × (raw_connect k e fd a w ≡ Raw.raw_connect k e fd a w)
        × (raw_getsockname k e fd w ≡ Raw.raw_getsockname k e fd w)
        × (raw_setsockopt k e fd l o n w ≡ Raw.raw_setsockopt k e fd l o n w)
        × (raw_getsockopt k e fd l o w ≡ Raw.raw_getsockopt k e fd l o w)
  windows_agrees fd bytes buf a l o n w h g = (
    sendto_agrees fd bytes a w h,
    send_agrees fd bytes w h,
    recvfrom_agrees fd buf w g,
    connect_agrees fd a w,
    getsockname_agrees fd w,
    setsockopt_agrees fd l o n w,
    getsockopt_agrees fd l o w,
  )
