-- ===== src/Tests/Script.antt =====
-- A scripted kernel and reactor. The kernel serves as many datagrams as its world counts, then
-- says EAGAIN; a datagram that it delivers fills the buffer with 7 and comes from 127.0.0.1.
use binger_udp.Base.{
  ℕ, ltb, zero, suc, pos, negsuc, ◌≤◌, ◌≡◌, ◌∙◌, ap, List, [], map, min, length, arith, length-map,
  sym,
}
use binger_udp.Error.{Errno, IoResult, ok, err}
use binger_udp.Net.{SocketAddr, ipv4, Endian}
use binger_udp.Sockaddr.{Storage, zeroed}
use binger_udp.Kernel.{Kernel, Recvfrom, Fd}
use binger_udp.Raw.{raw_recvfrom}
use binger_udp.Platform.Loops.Delivers.{RecvfromLaw}
use binger_udp.Backend.{Reactor}

abbrev pub filled : List ℕ → List ℕ
filled = map (λ _. 7)

abbrev pub loopback : Storage
loopback = Storage.sockaddr_in 20480 16777343

abbrev pub local_addr : SocketAddr
local_addr = SocketAddr.v4 (ipv4 127 0 0 1) 80

abbrev pub deliver : List ℕ → ℕ → Recvfrom × ℕ
deliver buf zero = (record { ret = negsuc 10; buf = buf; src = zeroed; addr_len = 128 }, 0)
deliver buf (suc n) =
    (record { ret = pos (min (length buf) 2); buf = filled buf; src = loopback; addr_len = 16 }, n)

abbrev pub script : Kernel
script = record {
  World = ℕ;
  last_os_error = λ w. Errno.eagain;
  send = λ fd bytes w. elim w [ zero ↦ (negsuc 10, 0) | suc n ↦ (pos bytes.len, n) ];
  sendto = λ fd bytes name len w. elim w [ zero ↦ (negsuc 10, 0) | suc n ↦ (pos bytes.len, n) ];
  recvfrom = λ fd. deliver;
  getpeername = λ fd w. (negsuc 106, w);
  getsockname = λ fd w. (pos 0, loopback, 16, w);
  connect = λ fd name len w. (pos 0, w);
  setsockopt = λ fd level optname value w. (pos 0, w);
  getsockopt = λ fd level optname w. (pos 0, 0, w);
  has_cmsghdr = λ n. ltb 15 n;
  sendmsg =
      λ fd bytes segment_size w. elim w [ zero ↦ (negsuc 10, 0) | suc n ↦ (pos bytes.len, n) ];
  sendmmsg = λ fd msgs w. (pos (min (length msgs) w), 0);
  recvmmsg = λ fd bufs w. (negsuc 10, [], w);
}

-- A wait ends when one more datagram can be served.
abbrev pub reactor : Reactor ℕ
reactor = record {
  writable = λ w. (ok tt, suc w);
  readable = λ w. (ok tt, suc w);
  now = λ w. w;
  later = λ w. w;
}

keeps_size :
    (fd : Fd) (buf buf' : List ℕ) (r : IoResult (ℕ × SocketAddr)) (w v : ℕ)
    → raw_recvfrom script Endian.little fd buf w ≡ (r, buf', v)
    → length buf' ≡ length buf
unfolding raw_recvfrom
keeps_size fd buf buf' r zero v h = ap length (sym (ap (λ p. p.1) h))
keeps_size fd buf buf' r (suc n) v h = ap length (sym (ap (λ p. p.1) h)) ∙ length-map (λ _. 7) buf

abbrev count : IoResult (ℕ × SocketAddr) → ℕ
count (ok (m, a)) = m
count (err x) = 0

in_buffer :
    (fd : Fd) (buf buf' : List ℕ) (m : ℕ) (a : SocketAddr) (w v : ℕ)
    → raw_recvfrom script Endian.little fd buf w ≡ (ok (m, a), buf', v)
    → m ≤ length buf
unfolding raw_recvfrom
in_buffer fd buf buf' m a zero v h = omega (arith, ap (λ p. count p.0) h)
in_buffer fd buf buf' m a (suc n) v h = omega (arith, ap (λ p. count p.0) h)

pub script-RecvfromLaw : (fd : Fd) → RecvfromLaw (raw_recvfrom script Endian.little fd)
script-RecvfromLaw fd = record { keeps_size = keeps_size fd; in_buffer = in_buffer fd }
