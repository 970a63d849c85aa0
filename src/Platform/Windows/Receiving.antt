-- ===== src/Platform/Windows/Receiving.antt =====
-- src/platform/windows.rs: what `try_recv_batch` leaves in the batch and returns.
use binger_udp.Base.{◌≡◌, refl, ◌∙◌, inl, inr, Bool-cases, ◌==◌, if◌then◌else◌, val, length, ==_iff}
use binger_udp.Net.{Endian}
use binger_udp.Kernel.{Kernel, Fd}
use binger_udp.Batch.Recv.{RecvBatchRaw, IsValid, All, capacity}
use binger_udp.Platform.Loops.{recv_loop}
use binger_udp.Platform.Loops.Pass.{Pass, result, batch}
use binger_udp.Platform.Loops.Delivers.{RecvfromLaw, Small, Passed, recv_loop-Passed}
use binger_udp.Platform.Windows.{Extension, wsa_recv, try_recv_batch}

module _ (k : Kernel) (e : Endian) (x : Extension k) (fd : Fd) where
  open k use {World}

  loops :
      (b : RecvBatchRaw) (w : World)
      → try_recv_batch k e x fd b w ≡ recv_loop (wsa_recv k e x fd) (length b.slots) 0 0 b w
  unfolding try_recv_batch capacity recv_loop
  loops b w = elim (Bool-cases (length b.slots == 0)) [
    | inl none ↦ rw (none, (==_iff (length b.slots) 0).0 none) refl
    | inr slots ↦ rw slots refl
  ]

  -- On a valid batch with buffers below 64 KiB, and calls that write inside the buffers,
  -- `try_recv_batch` does not panic, whether the system has `WSARecvMsg` or not. It leaves a valid
  -- batch of the same slots; the first ones, as many as datagrams were delivered before a call
  -- failed, hold these datagrams. Their number is the result, also where the next call would block;
  -- another error is returned. Their number is the new length, but where there are none the length
  -- stays.
  pub wsa_recv-Passed :
      (b : RecvBatchRaw) (w : World)
      → RecvfromLaw (wsa_recv k e x fd)
      → IsValid b
      → All (Small (wsa_recv k e x fd)) b.slots
      → (p : Pass (wsa_recv k e x fd)) × (try_recv_batch k e x fd b w
          ≡ val (
            result (wsa_recv k e x fd) p.0 p.2,
            batch p.1 (if p.2 == 0 then b.len else p.2),
            p.3,
          ))
        × Passed (wsa_recv k e x fd) b.slots w p
        × IsValid (batch p.1 (if p.2 == 0 then b.len else p.2))
  wsa_recv-Passed b w law v small =
      let (p, run, passed, valid) = recv_loop-Passed (wsa_recv k e x fd) law b w v small in
      (p, loops b w ∙ run, passed, valid)
