-- ===== src/Platform/Fallback/Receiving.antt =====
-- src/platform/fallback.rs: what `try_recv_batch` leaves in the batch and returns.
use binger_udp.Base.{
  ℕ, ◌≡◌, false, none, some, ◌==◌, val, if◌then◌else◌, Bool-cases, inl, inr, Option,
}
use binger_udp.Error.{IoError, err, is_would_block}
use binger_udp.Net.{Endian}
use binger_udp.Raw.{raw_recvfrom}
use binger_udp.Kernel.{Kernel, Fd}
use binger_udp.Batch.Recv.{RecvBatchRaw, IsValid, All, capacity}
use binger_udp.Platform.Loops.Pass.{Pass, result, batch}
use binger_udp.Platform.Loops.Delivers.{RecvfromLaw, Small, Passed, recv_loop-Passed}
use binger_udp.Platform.Fallback.{try_recv_batch}

module _ (k : Kernel) (e : Endian) (fd : Fd) where
  open k use {World}

  pub result-not_would_block :
      (stop : Option IoError) (n : ℕ) (x : IoError)
      → result (raw_recvfrom k e fd) stop n ≡ err x
      → is_would_block x ≡ false
  result-not_would_block none n x h = cc
  result-not_would_block (some y) n x h = elim (Bool-cases (is_would_block y)) [
    | inl t ↦ cc
    | inr t ↦ cc
  ]

  -- On a valid batch with buffers below 64 KiB, and a kernel that writes inside the buffers,
  -- `try_recv_batch` does not panic. It leaves a valid batch of the same slots; the first ones, as
  -- many as the kernel delivered datagrams before it stopped, hold these datagrams. Their number
  -- is the result, also where the next call would block; another error is returned. Their number
  -- is the new length, but where there are none the length stays.
  pub try_recv_batch-Passed :
      (b : RecvBatchRaw) (w : World)
      → RecvfromLaw (raw_recvfrom k e fd)
      → IsValid b
      → All (Small (raw_recvfrom k e fd)) b.slots
      → (p : Pass (raw_recvfrom k e fd)) × (try_recv_batch k e fd b w
          ≡ val (
            result (raw_recvfrom k e fd) p.0 p.2,
            batch p.1 (if p.2 == 0 then b.len else p.2),
            p.3,
          ))
        × Passed (raw_recvfrom k e fd) b.slots w p
        × IsValid (batch p.1 (if p.2 == 0 then b.len else p.2))
        × ((x : IoError) → result (raw_recvfrom k e fd) p.0 p.2 ≡ err x → is_would_block x ≡ false)
  unfolding try_recv_batch capacity
  try_recv_batch-Passed b w law v small =
      let (p, run, passed, valid) = recv_loop-Passed (raw_recvfrom k e fd) law b w v small in
      (p, run, passed, valid, result-not_would_block p.0 p.2)
