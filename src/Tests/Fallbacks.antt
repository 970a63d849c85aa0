-- ===== src/Tests/Fallbacks.antt =====
-- The fallback backend over the scripted kernel.
use binger_udp.Base.{ℕ, ◌≡◌, refl, ◌⊎◌, false, val, ◌==◌, if◌then◌else◌, arith}
use binger_udp.Error.{IoError, IoResult, ok, err, is_would_block}
use binger_udp.Net.{Endian}
use binger_udp.Raw.{raw_recvfrom, is_connected, raw_send, raw_sendto}
use binger_udp.Batch.Send.{entries}
use binger_udp.Batch.Send
use binger_udp.Batch.Recv.{IsValid}
use binger_udp.Platform.Loops.{send_entry, send_loop}
use binger_udp.Platform.Loops.Sends.{Sends}
use binger_udp.Platform.Loops.Pass.{Pass, result, batch}
use binger_udp.Platform.Loops.Delivers.{Passed}
use binger_udp.Platform.Fallback.{try_send_batch, try_recv_batch}
use binger_udp.Platform.Fallback.Sending.{try_send_batch-Sends}
use binger_udp.Platform.Fallback.Receiving.{try_recv_batch-Passed}
use binger_udp.Tests.Script.{script, script-RecvfromLaw}
use binger_udp.Tests.Batches.{two_waiting, two_waiting-IsValid, one_received, one_received-IsValid}

-- With room for one datagram the second of two would block.
try_send_batch-two_waiting : try_send_batch script Endian.little 3 two_waiting 1 ≡ val (ok 1, 0)
unfolding try_send_batch Send.len send_loop Send.entry send_entry is_connected raw_sendto raw_send
    is_would_block
try_send_batch-two_waiting = refl

try_send_batch-Sends_example :
    (r : IoResult ℕ) × (v : ℕ) × (try_send_batch script Endian.little 3 two_waiting 1 ≡ val (r, v))
    × ((two_waiting.len ≡ 0) × (r ≡ ok 0) × (v ≡ 1)
        ⊎ Sends
            (send_entry script Endian.little 3 (is_connected script Endian.little 3 1).0)
            (is_connected script Endian.little 3 1).1
            (entries two_waiting)
            r
            v)
    × ((x : IoError) → r ≡ err x → is_would_block x ≡ false)
try_send_batch-Sends_example =
    try_send_batch-Sends script Endian.little 3 two_waiting 1 two_waiting-IsValid

try_recv_batch-Passed_example :
    (p : Pass (raw_recvfrom script Endian.little 3)) × (try_recv_batch script Endian.little 3
        one_received 1
      ≡ val (
        result (raw_recvfrom script Endian.little 3) p.0 p.2,
        batch p.1 (if p.2 == 0 then 1 else p.2),
        p.3,
      ))
    × Passed (raw_recvfrom script Endian.little 3) one_received.slots 1 p
    × IsValid (batch p.1 (if p.2 == 0 then 1 else p.2))
    × ((x : IoError)
        → result (raw_recvfrom script Endian.little 3) p.0 p.2 ≡ err x
        → is_would_block x ≡ false)
try_recv_batch-Passed_example =
    try_recv_batch-Passed script Endian.little 3 one_received 1 (script-RecvfromLaw 3)
      one_received-IsValid (omega arith, (omega arith, tt))
