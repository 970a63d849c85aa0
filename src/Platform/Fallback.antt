-- ===== src/Platform/Fallback.antt =====
-- src/platform/fallback.rs: one `send`, `sendto` or `recvfrom` for each datagram.
pub mod Sending
pub mod Receiving
use binger_udp.Base.{ℕ, ◌==◌, if◌then◌else◌, Run, val}
use binger_udp.Error.{IoResult, ok}
use binger_udp.Net.{Endian}
use binger_udp.Kernel.{Kernel, Fd}
use binger_udp.Raw.{raw_recvfrom, is_connected}
use binger_udp.Batch.Send.{SendBatchRaw}
use binger_udp.Batch.Send
use binger_udp.Batch.Recv.{RecvBatchRaw, capacity}
use binger_udp.Platform.Loops.{send_loop, send_entry, recv_loop}

module _ (k : Kernel) (e : Endian) where
  open k use {World}

  unfoldable pub try_send_batch : Fd → SendBatchRaw → World → Run (IoResult ℕ × World)
  try_send_batch fd b w =
      if Send.len b == 0
      then val (ok 0, w)
      else let (connected, w') = is_connected k e fd w in
        send_loop (send_entry k e fd connected) b (Send.len b) 0 0 w'

  unfoldable pub try_recv_batch :
      Fd → RecvBatchRaw → World → Run (IoResult ℕ × RecvBatchRaw × World)
  try_recv_batch fd b w = recv_loop (raw_recvfrom k e fd) (capacity b) 0 0 b w
