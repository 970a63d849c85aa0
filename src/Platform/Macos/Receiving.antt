-- ===== src/Platform/Macos/Receiving.antt =====
-- src/platform/macos.rs: what `try_recv_batch` leaves in the batch where the system has `recvmsg_x`.
use mathlib.Core.List.{append_assoc}
use binger_udp.Base.{
  ℕ, suc, ◌+◌, ◌%◌, ◌^◌, ℤ, ◌≤◌, ◌<◌, ◌≡◌, refl, ap, some, List, [], ◌∷◌, ◌++◌, map, take, length,
  val, arith, length-append, take_all, pos_ne_zero,
}
use binger_udp.Error.{IoError, IoResult, ok, err}
use binger_udp.Net.{Endian}
use binger_udp.Sockaddr.{decode_sockaddr}
use binger_udp.Kernel.{Kernel, Fd, Received}
use binger_udp.Batch.Recv.{
  RecvSlot, RecvBatchRaw, write_addr, set_recv_len, set_len, capacity, datagram, Fits, All, IsValid,
}
use binger_udp.Platform.Loops.Pass.{batch, slot_mut-middle}
use binger_udp.Platform.Linux.Recv.{fill}
use binger_udp.Platform.Macos.{Extended, on_messages, after_recvmsg_x, try_recv_batch}
use binger_udp.Platform.Macos.Sending.{Settles, retry_eintr-Settles}

-- A message is no longer than its buffer, as the system documents it.
abbrev pub AllInBuffer : List Received → Type 0
AllInBuffer [] = Unit {0}
AllInBuffer (r ∷ rs) = (r.msg_len ≤ length r.buf) × (r.msg_len < 65536) × AllInBuffer rs

module _ (k : Kernel) (e : Endian) where
  open k use {World}

  -- What a message makes of its slot.
  abbrev pub received : RecvSlot → Received → RecvSlot
  received s r = record s {
    buf = r.buf;
    addr = decode_sockaddr e r.src r.namelen;
    recv_len = r.msg_len % 65536;
  }

  abbrev pub deliver : List RecvSlot → List Received → List RecvSlot
  deliver [] rs = []
  deliver (s ∷ ss) [] = s ∷ ss
  deliver (s ∷ ss) (r ∷ rs) = received s r ∷ deliver ss rs

  on_messages-deliver :
      (rs : List Received) (ss pre : List RecvSlot) (l i : ℕ)
      → i ≡ length pre
      → length rs ≤ length ss
      → on_messages k e rs i (batch (pre ++ fill ss rs) l) ≡ val (batch (pre ++ deliver ss rs) l)
  unfolding on_messages set_recv_len write_addr
  on_messages-deliver [] [] pre l i h le = refl
  on_messages-deliver [] (s ∷ ss) pre l i h le = refl
  on_messages-deliver (r ∷ rs) [] pre l i h le = elim le [ ]
  on_messages-deliver (r ∷ rs) (s ∷ ss) pre l i h le =
      let n = r.msg_len % 65536 in
      let a = decode_sockaddr e r.src r.namelen in
      rw
        (
          h,
          slot_mut-middle pre (record s { buf = r.buf }) (fill ss rs) l
              (λ t. record t { recv_len = n }),
          slot_mut-middle pre (record s { buf = r.buf; recv_len = n }) (fill ss rs) l
              (λ t. record t { addr = a }),
          ← append_assoc pre (received s r ∷ []) (fill ss rs),
          on_messages-deliver rs ss (pre ++ received s r ∷ []) l (length pre + 1)
              (omega (arith, length-append pre (received s r ∷ []))) (omega arith),
          append_assoc pre (received s r ∷ []) (deliver ss rs),
        )
        refl

  datagrams :
      (ss : List RecvSlot) (rs : List Received)
      → AllInBuffer rs
      → length rs ≤ length ss
      → map datagram (take (length rs) (deliver ss rs))
        ≡ map (λ r. (take r.msg_len r.buf, decode_sockaddr e r.src r.namelen)) rs
  datagrams [] [] p le = refl
  datagrams (s ∷ ss) [] p le = refl
  datagrams [] (r ∷ rs) p le = elim le [ ]
  datagrams (s ∷ ss) (r ∷ rs) p le =
      let whole : r.msg_len % 65536 ≡ r.msg_len = omega (arith, p.1) in
      rw (whole, datagrams ss rs p.2 (omega arith))

  deliver-Fits :
      (ss : List RecvSlot) (rs : List Received)
      → All Fits ss
      → AllInBuffer rs
      → All Fits (deliver ss rs) × (length (deliver ss rs) ≡ length ss)
  deliver-Fits [] rs f p = (tt, refl)
  deliver-Fits (s ∷ ss) [] f p = (f, refl)
  deliver-Fits (s ∷ ss) (r ∷ rs) f p =
      let (fits, same) = deliver-Fits ss rs f.1 p.2 in
      ((omega (arith, p.0, p.1), fits), ap suc same)

  -- What an answer of `recvmsg_x` makes of the batch and the result: its messages are delivered, or
  -- its error is returned with the batch as it was.
  pub data Outcome (b : RecvBatchRaw)
      : IoResult (ℕ × List Received) → IoResult ℕ × RecvBatchRaw → Type 0 where
    delivered :
        {rs : List Received}
        → map datagram (take (length rs) (deliver b.slots rs))
          ≡ map (λ r. (take r.msg_len r.buf, decode_sockaddr e r.src r.namelen)) rs
        → IsValid (batch (deliver b.slots rs) (length rs))
        → Outcome b (ok (length rs, rs)) (ok (length rs), batch (deliver b.slots rs) (length rs))
    failed : {x : IoError} → Outcome b (err x) (err x, b)

  -- As documented, an answer counts the messages that it has filled, at most as many as there are
  -- buffers, each inside its own.
  abbrev pub IsProper : ℕ → IoResult (ℕ × List Received) → Type 0
  IsProper n (ok (m, rs)) = (m ≡ length rs) × (m ≤ n) × AllInBuffer rs
  IsProper n (err x) = Unit {0}

  after_recvmsg_x-Outcome :
      (b : RecvBatchRaw) (answer : IoResult (ℕ × List Received)) (v : World)
      → IsValid b
      → IsProper (length b.slots) answer
      → (r : IoResult ℕ) × (b' : RecvBatchRaw) × (after_recvmsg_x k e (answer, v) b
          ≡ val (r, b', v))
        × Outcome b answer (r, b')
  unfolding set_len
  after_recvmsg_x-Outcome b (err x) v valid proper = (err x, b, refl, Outcome.failed)
  after_recvmsg_x-Outcome b (ok (m, rs)) v valid proper =
      let (fits, same) = deliver-Fits b.slots rs valid.fit proper.2 in
      let le : length rs ≤ length b.slots = omega (arith, proper.0, proper.1) in
      (
        ok (length rs),
        batch (deliver b.slots rs) (length rs),
        rw
            (
              proper.0,
              take_all rs (length rs) (omega arith),
              on_messages-deliver rs b.slots [] b.len 0 refl le,
            )
            refl,
        rw proper.0 (
            Outcome.delivered (datagrams b.slots rs proper.2 le)
              (record { within = omega (arith, same, le); fit = fits })),
      )

  -- Where the system has `recvmsg_x`, and it gives a proper answer after fewer interruptions than
  -- the fuel, `try_recv_batch` on a valid batch that is not of capacity 0 does not panic. If some
  -- messages were filled it returns their number, which is the new length of a valid batch, and the
  -- first slots hold the datagrams in their order, with their sources. If the call failed otherwise,
  -- the error is returned and the batch is as it was.
  pub try_recv_batch-Outcome :
      (x : Extended k) (fuel j : ℕ) (fd : Fd) (b : RecvBatchRaw) (w v : World)
      (call : Fd → List (List ℕ) → World → ℤ × List Received × World)
      (answer : IoResult (ℕ × List Received))
      → IsValid b
      → 0 < length b.slots
      → x.recvmsg_x ≡ some call
      → Settles k e
          (call fd (take (length b.slots % 2 ^ 32) (map (λ s. s.buf) b.slots)))
          answer
          v
          j
          w
      → j < fuel
      → IsProper (length b.slots) answer
      → (r : IoResult ℕ) × (b' : RecvBatchRaw) × (try_recv_batch k e x fuel fd b w ≡ val (r, b', v))
        × Outcome b answer (r, b')
  unfolding try_recv_batch capacity
  try_recv_batch-Outcome x fuel j fd b w v call answer valid some_slot p settles enough proper =
      let (r, b', run, outcome) = after_recvmsg_x-Outcome b answer v valid proper in
      (
        r,
        b',
        rw (pos_ne_zero (length b.slots) some_slot, p, retry_eintr-Settles k e fuel settles enough)
            run,
        outcome,
      )
