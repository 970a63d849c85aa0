-- ===== src/Backend/Contract/Macos.antt =====
-- src/platform/macos.rs: the macOS backend keeps the contract of the socket, over a system that does
-- what it documents.
use binger_udp.Base.{
  ℕ, zero, suc, ◌%◌, ◌^◌, ℤ, ◌≤◌, ◌<◌, ◌≡◌, refl, subst, inl, inr, Option-cases, Bool, true, false,
  Bool-cases, some, List, [], ◌∷◌, map, take, length, length-take, val, arith, ◌==◌, if◌then◌else◌,
}
use mathlib.Core.Path.{ap₂}
use binger_udp.Error.{IoResult, ok, err}
use binger_udp.Net.{Endian}
use binger_udp.Kernel.{Kernel, Fd, Datagram, Received}
use binger_udp.Raw.{raw_recvfrom, is_connected}
use binger_udp.Batch.Send.{SendBatchRaw, entries, len}
use binger_udp.Batch.Send
use binger_udp.Batch.Send.Refine.{length-entries}
use binger_udp.Batch.Recv.{RecvSlot, RecvBatchRaw, IsValid, capacity}
use binger_udp.Platform.Loops.{send_entry}
use binger_udp.Platform.Loops.Sends.{send_loop-Sends}
use binger_udp.Platform.Loops.Pass.{result, batch}
use binger_udp.Platform.Loops.Delivers.{RecvfromLaw, recv_loop-Passed}
use binger_udp.Platform.Linux.Send.Heap.{heap_datagrams-linked}
use binger_udp.Platform.Macos.{
  Extended, sent_result, no_output, send_messages, after_connected, try_send_batch, try_recv_batch,
}
use binger_udp.Platform.Macos.Sending.{Settles, retry_eintr-Settles}
use binger_udp.Platform.Macos.Receiving.{deliver, Outcome, IsProper, try_recv_batch-Outcome}
use binger_udp.Socket.Contract.{CountsAtMost, AreShort, Kept, Reported}
use binger_udp.Backend.Contract.{Sends-CountsAtMost, short_slots, Passed-Kept, some_val}
use binger_udp.Backend.Contract.Linux.{IntoBuffers}

module _ (k : Kernel) (e : Endian) (x : Extended k) where
  open k use {World}

  -- What a reception fills lies in the first buffers.
  abbrev pub AnswersInto : List (List ℕ) → IoResult (ℕ × List Received) → Type 0
  AnswersInto bufs (ok (m, rs)) = IntoBuffers bufs rs
  AnswersInto bufs (err er) = Unit {0}

  -- `sendmsg_x` and `recvmsg_x`, where the system has them, settle within the fuel. The first counts
  -- at most the messages that it was given; the second fills the first buffers.
  pub record MacosLaw (fuel : ℕ) : Type 0 where
    pub one_by_one : (fd : Fd) → RecvfromLaw (raw_recvfrom k e fd)
    pub sends :
        (call : Fd → List Datagram → World → ℤ × World)
        → x.sendmsg_x ≡ some call
        → (fd : Fd) (ds : List Datagram) (w : World)
        → (r : IoResult (ℕ × Unit {0})) × (v : World) × (j : ℕ) × Settles k e
            (λ u. no_output k e (call fd ds u))
            r
            v
            j
            w
          × (j < fuel)
          × CountsAtMost (length ds) (sent_result k e r)
    pub receives :
        (call : Fd → List (List ℕ) → World → ℤ × List Received × World)
        → x.recvmsg_x ≡ some call
        → (fd : Fd) (bufs : List (List ℕ)) (w : World)
        → (answer : IoResult (ℕ × List Received)) × (v : World) × (j : ℕ) × Settles k e
            (call fd bufs)
            answer
            v
            j
            w
          × (j < fuel)
          × IsProper k e (length bufs) answer
          × AnswersInto bufs answer

  deliver-sizes :
      (n : ℕ) (ss : List RecvSlot) (rs : List Received)
      → IntoBuffers (take n (map (λ s. s.buf) ss)) rs
      → map (λ s. length s.buf) (deliver k e ss rs) ≡ map (λ s. length s.buf) ss
  deliver-sizes n [] rs h = refl
  deliver-sizes n (s ∷ ss) [] h = refl
  deliver-sizes zero (s ∷ ss) (r ∷ rs) h = absurd h
  deliver-sizes (suc n) (s ∷ ss) (r ∷ rs) (size, h) =
      ap₂ (λ m l. m ∷ l) size (deliver-sizes n ss rs h)

  IsProper-more :
      (m n : ℕ) (answer : IoResult (ℕ × List Received))
      → m ≤ n
      → IsProper k e m answer
      → IsProper k e n answer
  IsProper-more m n (ok (c, rs)) le h = (h.0, omega (arith, le, h.1), h.2)
  IsProper-more m n (err er) le h = tt

  CountsAtMost-more : (m n : ℕ) (r : IoResult ℕ) → m ≤ n → CountsAtMost m r → CountsAtMost n r
  CountsAtMost-more m n (ok c) le h = omega (arith, le, h)
  CountsAtMost-more m n (err er) le h = tt

  -- An answer that was delivered, or failed, as the contract has it.
  Outcome-Kept :
      (b : RecvBatchRaw) (answer : IoResult (ℕ × List Received)) (r : IoResult ℕ)
      (b' : RecvBatchRaw)
      → IsValid b
      → AnswersInto (take (length b.slots % 2 ^ 32) (map (λ s. s.buf) b.slots)) answer
      → Outcome k e b answer (r, b')
      → Kept b b' × Reported b' r
  Outcome-Kept b (ok (m, rs)) r b' valid into (Outcome.delivered read valid') = (
    record { valid = valid'; same_sizes = deliver-sizes (length b.slots % 2 ^ 32) b.slots rs into },
    λ h. refl,
  )
  Outcome-Kept b (err er) r b' valid into Outcome.failed =
      (record { valid = valid; same_sizes = refl }, tt)

  module _ (fuel : ℕ) (law : MacosLaw fuel) (fd : Fd) where
    send_messages-CountsAtMost :
        (b : SendBatchRaw) (ds : List Datagram) (w : World)
        → Send.IsValid b
        → (r : IoResult ℕ) × (v : World) × (send_messages k e x fuel fd b ds w ≡ val (r, v))
          × CountsAtMost b.len r
    unfolding send_messages len
    send_messages-CountsAtMost b ds w valid = elim (Option-cases x.sendmsg_x) [
      | inl p ↦
          let (r, v, run, sends) = send_loop-Sends (send_entry k e fd false) b w valid in
          (
            r,
            v,
            rw p run,
            subst (λ n. CountsAtMost n r) (length-entries b valid)
                (Sends-CountsAtMost (send_entry k e fd false) sends),
          )
      | inr (call, p) ↦
          let announced = take (b.len % 2 ^ 32) ds in
          let (r, v, j, settles, enough, counts) = law.sends call p fd announced w in
          (
            sent_result k e r,
            v,
            rw (p, retry_eintr-Settles k e fuel settles enough) refl,
            CountsAtMost-more (length announced) b.len (sent_result k e r)
                (omega (arith, length-take (b.len % 2 ^ 32) ds)) counts,
          )
    ]

    after_connected-CountsAtMost :
        (connected : Bool) (b : SendBatchRaw) (w : World)
        → Send.IsValid b
        → (r : IoResult ℕ) × (v : World) × (after_connected k e connected x fuel fd b w
            ≡ val (r, v))
          × CountsAtMost b.len r
    unfolding len
    after_connected-CountsAtMost true b w valid =
        let (r, v, run, sends) = send_loop-Sends (send_entry k e fd true) b w valid in
        (
          r,
          v,
          run,
          subst (λ n. CountsAtMost n r) (length-entries b valid)
              (Sends-CountsAtMost (send_entry k e fd true) sends),
        )
    after_connected-CountsAtMost false b w valid =
        let (ds, prepared) = some_val (heap_datagrams-linked e b valid) in
        let (r, v, run, counts) = send_messages-CountsAtMost b ds w valid in
        (r, v, rw prepared run, counts)

    pub sends :
        (b : SendBatchRaw) (w : World)
        → Send.IsValid b
        → (r : IoResult ℕ) × (v : World) × (try_send_batch k e x fuel fd b w ≡ val (r, v))
          × CountsAtMost b.len r
    unfolding try_send_batch len
    sends b w valid = elim (Bool-cases (b.len == 0)) [
      | inl empty ↦ (ok 0, w, rw empty refl, omega arith)
      | inr some_entry ↦
          let (connected, w₁) = is_connected k e fd w in
          let (r, v, run, counts) = after_connected-CountsAtMost connected b w₁ valid in
          (r, v, rw some_entry run, counts)
    ]

    pub receives :
        (b : RecvBatchRaw) (w : World)
        → IsValid b
        → AreShort b
        → (r : IoResult ℕ) × (b' : RecvBatchRaw) × (v : World) × (try_recv_batch k e x fuel fd b w
            ≡ val (r, b', v))
          × Kept b b'
          × Reported b' r
    unfolding try_recv_batch capacity
    receives b w valid short = elim (Bool-cases (length b.slots == 0)) [
      | inl empty ↦ (
        ok 0,
        b,
        w,
        rw empty refl,
        record { valid = valid; same_sizes = refl },
        λ h. omega (arith, h),
      )
      | inr some_slot ↦ elim (Option-cases x.recvmsg_x) [
        | inl p ↦
            let one = raw_recvfrom k e fd in
            let (q, run, passed, valid') =
              recv_loop-Passed one (law.one_by_one fd) b w valid (short_slots one b short) in
            let (kept, reported) = Passed-Kept one b passed valid' in
            (
              result one q.0 q.2,
              batch q.1 (if q.2 == 0 then b.len else q.2),
              q.3,
              rw (some_slot, p) run,
              kept,
              reported,
            )
        | inr (call, p) ↦
            let bufs = take (length b.slots % 2 ^ 32) (map (λ (s : RecvSlot). s.buf) b.slots) in
            let (answer, v, j, settles, enough, proper, into) = law.receives call p fd bufs w in
            let le : length bufs ≤ length b.slots = omega (
              arith,
              length-take (length b.slots % 2 ^ 32) (map (λ (s : RecvSlot). s.buf) b.slots),
            ) in
            let (r, b', run, outcome) =
              try_recv_batch-Outcome k e x fuel j fd b w v call answer valid (ground arith) p
                settles enough (IsProper-more (length bufs) (length b.slots) answer le proper) in
            let (kept, reported) = Outcome-Kept b answer r b' valid into outcome in
            (r, b', v, run, kept, reported)
      ]
    ]
