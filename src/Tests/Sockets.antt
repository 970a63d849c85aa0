-- ===== src/Tests/Sockets.antt =====
-- Sockets over the fallback backend and the scripted kernel.
use binger_udp.Base.{zero, suc, ◌≡◌, refl, none, some, val, arith}
use binger_udp.Error.{IoError, Errno, ok, err, is_would_block}
use binger_udp.Net.{Endian, Slice, slice}
use binger_udp.Raw.{is_connected, raw_sendto}
use binger_udp.Platform.Loops.{send_entry}
use binger_udp.Adaptive
use binger_udp.Metrics.{default}
use binger_udp.Socket.{
  BingerUdp, Env, mutex, after_platform_send, send_batch, send_to, try_send_to, blocked_send,
}
use binger_udp.Socket.Retry.{Ready, send_batch-Ready}
use binger_udp.Backend.{fallback_env}
use binger_udp.Backend.Single.{send_to_lost}
use binger_udp.Tests.Script.{script, reactor, local_addr}
use binger_udp.Tests.Batches.{two_waiting}

abbrev pub env : Env
env = fallback_env script Endian.little reactor

abbrev pub socket : BingerUdp
socket = record {
  fd = 3;
  metrics = some default;
  adaptive_send = some (mutex (Adaptive.new 0 32));
  adaptive_recv = none;
}

-- A platform that would block until it can take a batch.
abbrev blocking : Env
blocking = record env {
  platform_send = λ fd b w. elim w [
    | zero ↦ val (err (IoError.os Errno.eagain), 0)
    | suc n ↦ val (ok b.len, n)
  ];
}

-- The socket after one blocked attempt, and after the success that follows.
abbrev once_blocked : BingerUdp
once_blocked = blocked_send blocking (after_platform_send socket (err (IoError.os Errno.eagain))) 0

abbrev settled : BingerUdp
settled = after_platform_send once_blocked (ok 2)

one_wait : Ready blocking two_waiting (ok 2) settled 0 1 socket 0
unfolding is_would_block
one_wait = Ready.waits refl refl refl (Ready.settles tt refl refl)

send_batch-Ready_example : send_batch blocking 2 socket two_waiting 0 ≡ val (ok 2, settled, 0)
send_batch-Ready_example = send_batch-Ready blocking two_waiting 2 one_wait (omega arith)

abbrev bytes : Slice
bytes = slice 100 3

send_to_lost_example :
    (try_send_to env socket bytes local_addr 0 ≡ val (ok 3, after_platform_send socket (ok 0), 0))
    × (send_to env 1 socket bytes local_addr 0 ≡ val (ok 3, after_platform_send socket (ok 0), 0))
unfolding is_connected send_entry raw_sendto is_would_block
send_to_lost_example =
    send_to_lost script Endian.little reactor 0 socket bytes local_addr 0 0
      (IoError.os Errno.eagain) refl refl
