-- ===== src/Backend/Contract/Linux/Receiving.antt =====
-- src/platform/linux.rs: receptions of the Linux backend keep the contract of the socket.
use binger_udp.Base.{
  ℕ, zero, suc, ◌%◌, ◌^◌, ◌≤◌, ◌<◌, ◌≡◌, refl, inl, inr, List, [], ◌∷◌, map, take, length,
  Bool-cases, val, arith, ◌==◌, if◌then◌else◌,
}
use mathlib.Core.Path.{ap₂}
use binger_udp.Error.{IoResult, ok, err, is_enosys}
use binger_udp.Net.{Endian}
use binger_udp.Kernel.{Kernel, Fd, Received}
use binger_udp.Raw.{raw_recvfrom, last}
use binger_udp.Batch.Recv.{RecvSlot, RecvBatchRaw, IsValid, capacity}
use binger_udp.Platform.Loops.Pass.{result, batch}
use binger_udp.Platform.Loops.Delivers.{recv_loop-Passed}
use binger_udp.Platform.Linux.Recv.{Answer, retry_eintr, try_recv_batch, fallback_recv}
use binger_udp.Platform.Linux.Recv.Plain.{deliver, try_recv_batch-plain}
use binger_udp.Socket.Contract.{AreShort, Kept, Reported}
use binger_udp.Backend.Contract.{short_slots, Passed-Kept}
use binger_udp.Backend.Contract.Linux.{
  LinuxLaw, WithoutGro, Answers-AllPlain, IntoBuffers, Fails, fails, again,
}

module _ (k : Kernel) (e : Endian) where
  open k use {World}

  retry_eintr-Fails :
      (fuel : ℕ) {j : ℕ} {call : World → Answer k e} {v w : World}
      → Fails k e call v j w
      → j < fuel
      → retry_eintr k e fuel call w ≡ val (err (last k e v), v)
  unfolding retry_eintr
  retry_eintr-Fails zero f h = elim h [ ]
  retry_eintr-Fails (suc fuel) (fails p q) h = rw (p, q) refl
  retry_eintr-Fails (suc fuel) (again p q rest) h =
      rw (p, q) (retry_eintr-Fails fuel rest (omega arith))

  -- Messages that fill the first buffers are no more than these, and leave their sizes.
  deliver-sizes :
      (n : ℕ) (ss : List RecvSlot) (rs : List Received)
      → IntoBuffers (take n (map (λ s. s.buf) ss)) rs
      → (length rs ≤ length ss)
        × (map (λ s. length s.buf) (deliver e ss rs) ≡ map (λ s. length s.buf) ss)
  deliver-sizes n [] [] h = (omega arith, refl)
  deliver-sizes n (s ∷ ss) [] h = (omega arith, refl)
  deliver-sizes zero [] (r ∷ rs) h = absurd h
  deliver-sizes (suc n) [] (r ∷ rs) h = absurd h
  deliver-sizes zero (s ∷ ss) (r ∷ rs) h = absurd h
  deliver-sizes (suc n) (s ∷ ss) (r ∷ rs) (size, h) =
      let (le, same) = deliver-sizes n ss rs h in (omega (arith, le), ap₂ (λ m l. m ∷ l) size same)

  module _ (fuel : ℕ) (law : LinuxLaw k e fuel) (no_gro : WithoutGro k e) (fd : Fd) where
    -- What the socket relies on of a reception.
    abbrev Kept-Reported : RecvBatchRaw → World → Type 0
    Kept-Reported b w =
        (r : IoResult ℕ) × (b' : RecvBatchRaw) × (v : World) × (try_recv_batch k e fuel fd b w
          ≡ val (r, b', v))
        × Kept b b'
        × Reported b' r

    pub receives : (b : RecvBatchRaw) (w : World) → IsValid b → AreShort b → Kept-Reported b w
    unfolding try_recv_batch capacity fallback_recv
    receives b w valid short = elim (Bool-cases (length b.slots == 0)) [
      | inl empty ↦ (
        ok 0,
        b,
        w,
        rw empty refl,
        record { valid = valid; same_sizes = refl },
        λ h. omega (arith, h),
      )
      | inr some_slot ↦
          let bufs = take (length b.slots % 2 ^ 32) (map (λ (s : RecvSlot). s.buf) b.slots) in
          let (j, v, enough, how) = law.receives fd bufs w in
          elim how [
            | inl (rs, answers, in_buffers, into) ↦
                let plain = Answers-AllPlain k e no_gro fd bufs rs v answers in_buffers in
                let (le, same) = deliver-sizes (length b.slots % 2 ^ 32) b.slots rs into in
                let (run, read, valid') =
                  try_recv_batch-plain k e fuel j fd b rs w v valid (ground arith) answers enough le
                    plain in
                (
                  ok (length rs),
                  batch (deliver e b.slots rs) (length rs),
                  v,
                  run,
                  record { valid = valid'; same_sizes = same },
                  λ h. refl,
                )
            | inr failing ↦ elim (Bool-cases (is_enosys (last k e v))) [
              | inl missing ↦
                  let one = raw_recvfrom k e fd in
                  let (p, run, passed, valid') =
                    recv_loop-Passed one (law.one_by_one fd) b v valid (short_slots one b short) in
                  let (kept, reported) = Passed-Kept one b passed valid' in
                  (
                    result one p.0 p.2,
                    batch p.1 (if p.2 == 0 then b.len else p.2),
                    p.3,
                    rw (some_slot, retry_eintr-Fails fuel failing enough, missing) run,
                    kept,
                    reported,
                  )
              | inr refused ↦ (
                err (last k e v),
                b,
                v,
                rw (some_slot, retry_eintr-Fails fuel failing enough, refused) refl,
                record { valid = valid; same_sizes = refl },
                tt,
              )
            ]
          ]
    ]
