-- ===== src/Tests/Contracts.antt =====
-- Backends that keep the contract of the socket, and a socket over one of them.
use binger_udp.Base.{
  ℕ, zero, suc, ℤ, pos, negsuc, ◌≤◌, ◌<◌, ◌≡◌, refl, ◌⊎◌, inl, inr, none, false, List, [], ◌∷◌,
  ◌++◌, map, min, length, take, drop, arith, val, length-map, ap, subst,
}
use binger_udp.Error.{IoResult, ok, is_interrupted, is_would_block}
use binger_udp.Net.{SocketAddr, Endian, Slice, slice}
use binger_udp.Kernel.{Kernel, Fd, Datagram, Received}
use binger_udp.Raw.{raw_recvfrom}
use binger_udp.Sockaddr
use binger_udp.Batch.Recv.{
  capacity, buffer_mut, set_recv_len, write_buf, write_addr, set_len, slot_mut, RecvBatchRaw, iter,
  datagram, All, payload, addr, with_capacity,
}
use binger_udp.Platform.Linux.Recv.Plain.{Answers, segment_size}
use binger_udp.Batch.Recv.Slots.{with_capacity-IsValid}
use binger_udp.Platform.Fallback
use binger_udp.Platform.Loops
use binger_udp.Platform.Macos.{Extended}
use binger_udp.Platform.Windows.{Extension}
use binger_udp.Socket.{
  BingerUdp, send_batch, send_to, try_recv_batch, recv_batch, recv_from, after_platform_recv,
  blocked_recv,
}
use binger_udp.Socket.Arrival.{Arrives}
use binger_udp.Socket.Contract.{Contract, CountsAtMost, Kept, Reported, Returns, AreShort}
use binger_udp.Socket.Contract.Sending.{EndsOrBlocks, shown_whole, send_operations-Tries}
use binger_udp.Backend.Single.{one_slot}
use binger_udp.Socket.Contract.Receiving.{Held, Ends, AfterRecvFrom, recv_operations-Ends}
use binger_udp.Socket.WithoutTokio.{without_tokio, NotBlocked, without_tokio-NotBlocked}
use binger_udp.Socket.Contract.Arriving.{recv_batch-iter, recv_from-Arrives}
use binger_udp.Backend.{Target, imp, platform_env}
use binger_udp.Backend.Contract.{fallback_env-Contract}
use binger_udp.Backend.Contract.Linux.{LinuxLaw, WithoutGro, InBuffer, IntoBuffers, Fails, fails}
use binger_udp.Backend.Contract.Choice.{platform_env-Contract}
use binger_udp.Tests.Script.{script, reactor, filled, loopback, local_addr, script-RecvfromLaw}
use binger_udp.Tests.Batches.{two_waiting, two_waiting-IsValid, one_received, one_received-IsValid}
use binger_udp.Tests.Sockets.{env, socket}

-- A kernel whose `recvmmsg` fills the first buffer while it has a datagram.
abbrev one_message : List ℕ → Received
one_message buf = record {
  buf = filled buf;
  msg_len = min (length buf) 2;
  src = loopback;
  namelen = 16;
  cmsgs = [];
}

abbrev serve : List (List ℕ) → ℕ → ℤ × List Received × ℕ
serve bufs zero = (negsuc 10, [], 0)
serve [] (suc n) = (pos 0, [], n)
serve (buf ∷ bufs) (suc n) = (pos 1, one_message buf ∷ [], n)

abbrev serving : Kernel
serving = record script { recvmmsg = λ fd bufs w. serve bufs w }

sends_few :
    (fd : Fd) (ds : List Datagram) (w v : ℕ) (n : ℕ)
    → serving.sendmmsg fd ds w ≡ (pos n, v)
    → n ≤ length ds
sends_few fd ds w v n h = omega (arith, ap (λ p. count p.0) h)
  where
    count : ℤ → ℕ
    count (pos m) = m
    count (negsuc m) = 0

answers :
    (bufs : List (List ℕ)) (w : ℕ)
    → (j : ℕ) × (v : ℕ) × (j < 1)
      × (((rs : List Received) × Answers serving Endian.little (serve bufs) rs v j w
            × All InBuffer rs
            × IntoBuffers bufs rs)
          ⊎ Fails serving Endian.little (serve bufs) v j w)
unfolding is_interrupted
answers bufs zero = (0, 0, omega arith, inr (fails refl refl))
answers [] (suc n) = (0, n, omega arith, inl ([], Answers.answered refl, tt, tt))
answers (buf ∷ bufs) (suc n) = (
  0,
  n,
  omega arith,
  inl (
    one_message buf ∷ [],
    Answers.answered refl,
    ((omega (arith, length-map {B = ℕ} (λ _. 7) buf), omega arith), tt),
    (length-map {B = ℕ} (λ _. 7) buf, tt),
  ),
)

serving-LinuxLaw : LinuxLaw serving Endian.little 1
unfolding raw_recvfrom
serving-LinuxLaw = record {
  one_by_one = script-RecvfromLaw;
  sends = sends_few;
  receives = λ fd bufs w. answers bufs w;
}

serve-not_coalesced :
    (bufs : List (List ℕ)) (rs : List Received) (w v n : ℕ)
    → serve bufs w ≡ (pos n, rs, v)
    → All (λ (r : Received). segment_size r.cmsgs 0 ≡ 0) rs
serve-not_coalesced bufs rs zero v n h = subst (All _) (ap (λ p. p.1) h) tt
serve-not_coalesced [] rs (suc w) v n h = subst (All _) (ap (λ p. p.1) h) tt
serve-not_coalesced (buf ∷ bufs) rs (suc w) v n h = subst (All _) (ap (λ p. p.1) h) (refl, tt)

serving-WithoutGro : WithoutGro serving Endian.little
serving-WithoutGro = record {
  not_coalesced = λ fd bufs rs w v h. serve-not_coalesced bufs rs w v (length rs) h;
}

abbrev no_extended : Extended serving
no_extended = record { sendmsg_x = none; recvmsg_x = none }

abbrev no_extension : Extension serving
no_extension = record { wsa_send_msg = λ fd name bytes w. (pos 0, w); recvmsg = none }

platform_env-Contract_example :
    Contract (
      platform_env serving Endian.little reactor
        (imp Target.linux false)
        1
        no_extended
        no_extension)
unfolding imp
platform_env-Contract_example =
    platform_env-Contract serving Endian.little 1 no_extended no_extension reactor Target.linux
      false (serving-LinuxLaw, serving-WithoutGro)

pub env-Contract : Contract env
env-Contract = fallback_env-Contract script Endian.little reactor script-RecvfromLaw

abbrev bytes : Slice
bytes = slice 100 3

send_operations-Tries_example :
    EndsOrBlocks env 2 socket two_waiting 1 (λ z. z) (send_batch env 2 socket two_waiting 1)
    × EndsOrBlocks env 2 socket
        (one_slot bytes local_addr)
        1
        (shown_whole env bytes)
        (send_to env 2 socket bytes local_addr 1)
send_operations-Tries_example =
    send_operations-Tries env env-Contract 2 socket two_waiting bytes local_addr 1
      two_waiting-IsValid

abbrev buffer : List ℕ
buffer = 1 ∷ 2 ∷ 3 ∷ 4 ∷ []

recv_operations-Ends_example :
    ((r : IoResult ℕ) × (b' : RecvBatchRaw) × (t : BingerUdp) × (v : ℕ) × (try_recv_batch env socket
          one_received 1
        ≡ val (r, b', t, v))
      × Kept one_received b'
      × Reported b' r)
    × Returns (Ends env env-Contract one_received) (recv_batch env 2 socket one_received 1)
    × Returns (AfterRecvFrom env env-Contract buffer) (recv_from env 2 socket buffer 1)
recv_operations-Ends_example =
    recv_operations-Ends env env-Contract 2 socket one_received buffer 1 one_received-IsValid
      (omega arith, (omega arith, tt)) (omega arith)

-- A batch of one slot after a datagram.
abbrev one_filled : RecvBatchRaw
one_filled = record {
  slots =
      record {
        buf = 7 ∷ 7 ∷ 7 ∷ 7 ∷ [];
        addr = Sockaddr.decode_sockaddr Endian.little loopback 16;
        recv_len = 2;
        timestamp = none;
        dst_addr = none;
      }
      ∷ [];
  len = 1;
}

-- The socket after an attempt that finds nothing, and after the datagram that follows.
abbrev idle_socket : BingerUdp
idle_socket = blocked_recv env (after_platform_recv socket (ok 0)) 0

abbrev served_socket : BingerUdp
served_socket = after_platform_recv idle_socket (ok 1)

after_one_idle : Arrives env (ok 1) one_filled served_socket 0 1 socket (with_capacity 1 4) 0
unfolding with_capacity capacity buffer_mut set_recv_len write_buf write_addr set_len slot_mut
    Fallback.try_recv_batch Loops.recv_loop Loops.after_recv raw_recvfrom is_would_block
after_one_idle =
    Arrives.idles {s = socket} {b = with_capacity 1 4} {b₁ = with_capacity 1 4} {w = 0} {v = 0}
      {v' = 1} {r₁ = ok 0} tt refl refl (Arrives.arrives tt refl refl)

new-AreShort : AreShort (with_capacity 1 4)
unfolding with_capacity
new-AreShort = (omega arith, tt)

recv_batch-iter_example :
    (recv_batch env 2 socket (with_capacity 1 4) 0 ≡ val (ok 1, one_filled, served_socket, 0))
    × (iter one_filled ≡ val (map datagram (take 1 one_filled.slots)))
    × (length (map datagram (take 1 one_filled.slots)) ≡ 1)
    × Kept (with_capacity 1 4) one_filled
recv_batch-iter_example =
    recv_batch-iter env env-Contract 0 (with_capacity 1 4) one_filled socket served_socket 0 0 2 1
      (with_capacity-IsValid 1 4) new-AreShort after_one_idle (omega arith)

recv_from-Arrives_example :
    (bytes : List ℕ) × (a : SocketAddr) × (payload one_filled 0 ≡ val bytes)
    × (addr one_filled 0 ≡ val a)
    × (length bytes ≤ 4)
    × (recv_from env 2 socket buffer 0
        ≡ val (ok (length bytes, a), bytes ++ drop (length bytes) buffer, served_socket, 0))
recv_from-Arrives_example =
    recv_from-Arrives env env-Contract 0 one_filled socket served_socket 0 0 buffer 2 1
      (omega arith) after_one_idle (omega arith)

-- The first send would block, and so ends the operation.
without_tokio-NotBlocked_example :
    ((r : IoResult ℕ) × (t : BingerUdp) × (v : ℕ) × (send_batch
          (without_tokio env)
          1
          socket
          two_waiting
          0
        ≡ val (r, t, v))
      × CountsAtMost 2 r
      × NotBlocked r)
    × ((r : IoResult ℕ) × (b' : RecvBatchRaw) × (t : BingerUdp) × (v : ℕ) × (recv_batch
            (without_tokio env)
            1
            socket
            one_received
            0
          ≡ val (r, b', t, v))
        × Kept one_received b'
        × Held b' r
        × NotBlocked r)
without_tokio-NotBlocked_example =
    without_tokio-NotBlocked env 0 socket two_waiting one_received 0 env-Contract
      two_waiting-IsValid one_received-IsValid (omega arith, (omega arith, tt))
