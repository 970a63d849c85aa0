-- ===== src/Platform/Loops.antt =====
-- src/platform: the loops that make one system call for each datagram.
pub mod Sends
pub mod Pass
pub mod Delivers
use binger_udp.Base.{
  ℕ, zero, suc, ◌+◌, Bool, true, false, Option, none, some, List, if◌then◌else◌, Run, ◌>>=◌, val,
}
use binger_udp.Error.{IoResult, ok, err, is_would_block}
use binger_udp.Net.{SocketAddr, Slice, Endian}
use binger_udp.Kernel.{Kernel, Fd}
use binger_udp.Raw.{raw_send, raw_sendto}
use binger_udp.Batch.Send.{SendBatchRaw, Entry, entry}
use binger_udp.Batch.Recv.{RecvBatchRaw, buffer_mut, write_buf, write_addr, set_recv_len, set_len}

-- `match result`: go on after a success, leave the loop with what was sent where the call would
-- block, and return any other error.
abbrev pub after_send :
    {W : Type 0} → IoResult ℕ × W → ℕ → (W → Run (IoResult ℕ × W)) → Run (IoResult ℕ × W)
after_send (ok _, w) sent next = next w
after_send (err e, w) sent next = val (if is_would_block e then ok sent else err e, w)

-- `for i in 0..len` from index `i` on, `n` rounds left; `one` makes the call for an entry.
unfoldable pub send_loop :
    {W : Type 0}
    → (Entry → W → IoResult ℕ × W)
    → SendBatchRaw
    → ℕ
    → ℕ
    → ℕ
    → W
    → Run (IoResult ℕ × W)
send_loop one b zero i sent w = val (ok sent, w)
send_loop one b (suc n) i sent w = do
  x ← entry b i
  after_send (one x w) sent (λ w'. send_loop one b n (i + 1) (sent + 1) w')

module _ (k : Kernel) (e : Endian) where
  open k use {World}

  -- `match (connected, addr)`
  unfoldable pub send_entry : Fd → Bool → Entry → World → IoResult ℕ × World
  send_entry fd true (bytes, addr) w = raw_send k e fd bytes w
  send_entry fd false (bytes, none) w = raw_send k e fd bytes w
  send_entry fd false (bytes, some a) w = raw_sendto k e fd bytes a w

-- What a receiving call gives: its result, the buffer that it has written, and the world.
abbrev pub Got : Type 0 → Type 0
Got W = IoResult (ℕ × SocketAddr) × List ℕ × W

abbrev pub RecvResult : Type 0 → Type 0
RecvResult W = IoResult ℕ × RecvBatchRaw × W

-- What follows the call on slot `i`: the kernel has written the buffer; a datagram is recorded in
-- the slot, and the loop goes on with the batch that results.
unfoldable pub after_recv :
    {W : Type 0}
    → Got W
    → ℕ
    → ℕ
    → RecvBatchRaw
    → (RecvBatchRaw → W → Run (RecvResult W))
    → Run (RecvResult W)
after_recv (ok (m, a), buf, w) i received b next = do
  b₁ ← write_buf b i buf
  b₂ ← set_recv_len b₁ i m
  b₃ ← write_addr b₂ i a
  next (set_len b₃ (i + 1)) w
after_recv (err x, buf, w) i received b next = do
  b₁ ← write_buf b i buf
  val (if is_would_block x then ok received else err x, b₁, w)

-- `for i in 0..batch.capacity()` from index `i` on, `n` rounds left; `one` makes the call for a
-- buffer.
unfoldable pub recv_loop :
    {W : Type 0} → (List ℕ → W → Got W) → ℕ → ℕ → ℕ → RecvBatchRaw → W → Run (RecvResult W)
unfolding after_recv
recv_loop one zero i received b w = val (ok received, b, w)
recv_loop one (suc n) i received b w = do
  (buf, _) ← buffer_mut b i
  after_recv (one buf w) i received b (λ b' w'. recv_loop one n (i + 1) (received + 1) b' w')
