-- ===== src/Platform/Linux/Recv/Overflow.antt =====
-- src/platform/linux.rs: messages that follow a coalesced one past the capacity of the batch.
use binger_udp.Base.{
  ℕ, suc, ◌%◌, ◌^◌, ◌≤◌, ◌<◌, ◌≡◌, refl, ◌∙◌, ap, sym, pos_ne_zero, List, [], ◌∷◌, map, take,
  length, get_elem?-none, ◌>>=◌, val, panic, arith,
}
use binger_udp.Net.{SocketAddr, Endian}
use binger_udp.Batch.Recv.{RecvSlot, RecvBatchRaw, capacity, set_recv_len, slot_mut}
use binger_udp.Platform.Loops.Pass.{batch}
use binger_udp.Sockaddr.{decode_sockaddr}
use binger_udp.Kernel.{Kernel, Fd, Received}
use binger_udp.Platform.Linux.Recv.Plain.{segment_size, received, Answers, retry_eintr-Answers}
use binger_udp.Platform.Linux.Recv.Segment.{Room, put}
use binger_udp.Platform.Linux.Recv.Split.{spread}
use binger_udp.Platform.Linux.Recv.Gro.{segments, on_message-split}
use binger_udp.Platform.Linux.Recv.{fill, on_message, on_messages, try_recv_batch}

length-fill : (ss : List RecvSlot) (rs : List Received) → length (fill ss rs) ≡ length ss
length-fill [] rs = refl
length-fill (s ∷ ss) [] = refl
length-fill (s ∷ ss) (r ∷ rs) = ap suc (length-fill ss rs)

length-put :
    (s : RecvSlot) (a : SocketAddr) (xs : List (List ℕ)) (ts : List RecvSlot)
    → length (put s a xs ts) ≡ length ts
length-put s a [] ts = refl
length-put s a (x ∷ xs) [] = refl
length-put s a (x ∷ xs) (t ∷ ts) = ap suc (length-put s a xs ts)

length-spread :
    (s : RecvSlot) (a : SocketAddr) (xs : List (List ℕ)) (ts : List RecvSlot)
    → length (spread s a xs ts) ≡ suc (length ts)
length-spread s a [] ts = refl
length-spread s a (x ∷ xs) ts =
    ap suc (length-put (record s { recv_len = length x % 65536 }) a xs ts)

module _ (k : Kernel) (e : Endian) where
  open k use {World}

  on_message-past :
      (q : Received) (i : ℕ) (b : RecvBatchRaw) → length b.slots ≤ i → on_message k e q i b ≡ panic
  unfolding on_message set_recv_len slot_mut
  on_message-past q i b past = rw (get_elem?-none b.slots i past) refl

  on_messages-past :
      (r q : Received) (rs : List Received) (i j : ℕ) (b c : RecvBatchRaw)
      → on_message k e r i b ≡ val (j, c)
      → length c.slots ≤ j
      → on_messages k e (r ∷ q ∷ rs) i b ≡ panic
  unfolding on_messages
  on_messages-past r q rs i j b c first past =
      ap (λ z. z >>= λ (i', b'). on_messages k e (q ∷ rs) i' b') first
      ∙ ap (λ z. z >>= λ (i', b'). on_messages k e rs i' b') (on_message-past q j c past)

  handled_panics :
      (r q : Received) (rs : List Received) (g l : ℕ) (s : RecvSlot) (post : List RecvSlot)
      → segment_size r.cmsgs 0 ≡ suc g
      → 0 < r.msg_len
      → r.msg_len ≤ length r.buf
      → r.msg_len < 65536
      → Room (suc g) post
      → length (segments r g) ≡ suc (length post)
      → on_messages k e (r ∷ q ∷ rs) 0 (batch (record s { buf = r.buf } ∷ post) l) ≡ panic
  handled_panics r q rs g l s post size some_bytes fits short room full =
      let a = decode_sockaddr e r.src r.namelen in
      let slots = spread (received e s r) a (segments r g) post in
      on_messages-past r q rs 0 (length (segments r g)) (batch (record s { buf = r.buf } ∷ post) l)
        (batch slots l)
        ((on_message-split k e r g l [] s post size some_bytes fits short room
            (omega (arith, full))).0
          ∙ ap (λ n. val (n, batch slots l)) (omega arith))
        (omega (arith, length-spread (received e s r) a (segments r g) post, full))

  -- A batch of `n > 0` slots with room for the segments gets, after any number of interruptions, a
  -- message coalesced from exactly `n` datagrams and at least one more message. Then
  -- `try_recv_batch`, with more fuel than interruptions, panics: the next message goes to slot `n`.
  pub try_recv_batch-panics :
      (fuel j g l : ℕ) (fd : Fd) (s : RecvSlot) (ts : List RecvSlot) (r q : Received)
      (rs : List Received) (w v : World)
      → Answers k e
          (k.recvmmsg fd (take (length (s ∷ ts) % 2 ^ 32) (map (λ s. s.buf) (s ∷ ts))))
          (r ∷ q ∷ rs)
          v
          j
          w
      → j < fuel
      → segment_size r.cmsgs 0 ≡ suc g
      → 0 < r.msg_len
      → r.msg_len ≤ length r.buf
      → r.msg_len < 65536
      → Room (suc g) (fill ts (q ∷ rs))
      → length (segments r g) ≡ length (s ∷ ts)
      → try_recv_batch k e fuel fd (batch (s ∷ ts) l) w ≡ panic
  unfolding try_recv_batch capacity
  try_recv_batch-panics fuel j g l fd s ts r q rs w v answers enough size some_bytes fits short room
        full =
      rw
        (
          pos_ne_zero (length (s ∷ ts)) (omega arith),
          retry_eintr-Answers k e fuel answers enough,
          handled_panics r q rs g l s (fill ts (q ∷ rs)) size some_bytes fits short room
              (full ∙ ap suc (sym (length-fill ts (q ∷ rs)))),
        )
        refl
