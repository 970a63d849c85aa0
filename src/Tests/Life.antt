-- ===== src/Tests/Life.antt =====
-- Sockets from their opening on, over scripted kernels and reactors.
use binger_udp.Base.{
  ℕ, zero, suc, ◌≡◌, refl, inl, [], ◌∷◌, length, map, take, true, some, pos, negsuc, val, arith,
}
use binger_udp.Error.{ok, is_would_block}
use binger_udp.Net.{Endian, slice}
use binger_udp.Kernel.{Kernel}
use binger_udp.Raw.{raw_setsockopt, is_connected, raw_sendto, raw_send}
use binger_udp.Batch.Send
use binger_udp.Platform.Loops.{send_loop, send_entry}
use binger_udp.Platform.Fallback
use binger_udp.Socket.{BingerUdp, Env, try_send_batch, after_platform_send, send_batch, recv_batch}
use binger_udp.Socket.Config.{Config}
use binger_udp.Socket.Setup.{Runtime, opened, from_std}
use binger_udp.Socket.Opening.{calls, in_order, from_std-in_order}
use binger_udp.Socket.Sound.{IsSound}
use binger_udp.Socket.Reaches.{Step, Reaches, Reaches-IsSound}
use binger_udp.Socket.Gso.{send_gso}
use binger_udp.Socket.Gso.Sending.{Ends, send_gso-Ends}
use binger_udp.Backend.{fallback_env, linux_env}
use binger_udp.Backend.Liveness.{Relents, send_batch-Relents}
use binger_udp.Backend.Delivery.{Supplies, recv_batch-Supplies}
use binger_udp.Sockaddr.{decode_sockaddr}
use binger_udp.Batch.Recv.{datagram, IsValid}
use binger_udp.Platform.Loops.Pass.{batch}
use binger_udp.Platform.Linux.Recv.Plain.{Answers, deliver}
use binger_udp.Tests.Linux.{ping, ping-Plain}
use binger_udp.Tests.Script.{script, reactor, loopback}
use binger_udp.Tests.Batches.{two_waiting, two_waiting-IsValid, one_received, one_received-IsValid}

abbrev runtime : Runtime ℕ
runtime = record {
  set_nonblocking = λ fd on w. (ok tt, w);
  tokio_from_std = λ fd w. (ok tt, w);
  now = λ w. w;
  later = λ w. w;
}

-- All that a configuration can switch on.
abbrev config : Config
config = record {
  batch_size = 64;
  send_buf_size = some 1000;
  recv_os_buf_size = some 2000;
  adaptive_batching = true;
  metrics_enabled = true;
}

from_std-in_order_example :
    (from_std script Endian.little runtime 3 config 1
      ≡ in_order
          (calls script Endian.little runtime 3 config)
          (opened script Endian.little runtime 3 config)
          1)
    × ((s : BingerUdp) (v : ℕ)
        → from_std script Endian.little runtime 3 config 1 ≡ (ok s, v)
        → (s.fd ≡ 3) × IsSound s)
from_std-in_order_example = from_std-in_order script Endian.little runtime 3 config 1

abbrev env : Env
env = fallback_env script Endian.little reactor

abbrev fresh : BingerUdp
fresh = opened script Endian.little runtime 3 config 1

opens : from_std script Endian.little runtime 3 config 1 ≡ (ok fresh, 1)
unfolding from_std raw_setsockopt
opens = refl

-- One attempt of a batch of two, of which the kernel takes one.
abbrev used : BingerUdp
used = after_platform_send fresh (ok 1)

tried : try_send_batch env fresh two_waiting 1 ≡ val (ok 1, used, 0)
unfolding try_send_batch Fallback.try_send_batch Send.len send_loop Send.entry send_entry
    is_connected raw_sendto raw_send is_would_block
tried = refl

one_attempt : Reaches env fresh used
one_attempt = Reaches.then_step Reaches.here (Step.tries_send two_waiting 1 0 (ok 1) tried)

Reaches-IsSound_example : IsSound used
Reaches-IsSound_example =
    Reaches-IsSound script Endian.little runtime env 3 config 1 1 fresh used opens one_attempt

-- A kernel that takes all messages of a batch once its world is not 0.
abbrev relenting : Kernel
relenting = record script {
  sendmmsg = λ fd msgs w. elim w [ zero ↦ (negsuc 10, 0) | suc n ↦ (pos (length msgs), n) ];
}

blocks_once : Relents relenting Endian.little reactor 1 two_waiting 3 2 0 1 0
blocks_once = Relents.blocks refl refl refl (Relents.takes refl)

send_batch-Relents_example :
    (t : BingerUdp) × (send_batch
        (linux_env relenting Endian.little reactor 1)
        2
        fresh
        two_waiting
        0
      ≡ val (ok 2, t, 0))
    × (t.fd ≡ 3)
send_batch-Relents_example =
    send_batch-Relents relenting Endian.little reactor 1 two_waiting two_waiting-IsValid
      (omega arith) (omega arith) (inl (omega arith)) 2 1 2 fresh 0 0 blocks_once (omega arith)

one_wait : Ends script Endian.little reactor.writable fresh (slice 100 3) 2 0 (ok 3) 1 0
unfolding is_would_block
one_wait = Ends.waits refl refl refl (Ends.taken refl)

send_gso-Ends_example :
    send_gso script Endian.little reactor.writable 2 fresh (slice 100 3) 2 0 ≡ val (ok 3, 0)
send_gso-Ends_example =
    send_gso-Ends script Endian.little reactor.writable fresh (slice 100 3) 2 2 refl one_wait
      (omega arith)

-- The kernel has nothing at first, and then one datagram.
abbrev supplying : Kernel
supplying = record script {
  recvmmsg = λ fd bufs w. elim w [ zero ↦ (negsuc 10, [], 0) | suc n ↦ (pos 1, ping ∷ [], n) ];
}

dry_once : Supplies supplying Endian.little reactor 1 one_received 3 (ping ∷ []) 0 1 0
dry_once = Supplies.dry refl refl refl (Supplies.fills (Answers.answered refl) (omega arith))

recv_batch-Supplies_example :
    (t : BingerUdp) × (recv_batch
        (linux_env supplying Endian.little reactor 1)
        2
        fresh
        one_received
        0
      ≡ val (ok 1, batch (deliver Endian.little one_received.slots (ping ∷ [])) 1, t, 0))
    × (t.fd ≡ 3)
    × (map datagram (take 1 (deliver Endian.little one_received.slots (ping ∷ [])))
        ≡ (take 2 (112 ∷ 105 ∷ 0 ∷ 0 ∷ []), decode_sockaddr Endian.little loopback 16) ∷ [])
    × IsValid (batch (deliver Endian.little one_received.slots (ping ∷ [])) 1)
recv_batch-Supplies_example =
    recv_batch-Supplies supplying Endian.little reactor 1 one_received (omega arith) (omega arith)
      one_received-IsValid (ping ∷ []) (omega arith) (ping-Plain, tt) (omega arith) 2 1 fresh 0 0
      dry_once (omega arith)
