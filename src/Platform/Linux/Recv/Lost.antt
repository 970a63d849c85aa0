-- ===== src/Platform/Linux/Recv/Lost.antt =====
-- src/platform/linux.rs: what becomes of a datagram that follows a coalesced one.
use binger_udp.Base.{
  ℕ, zero, suc, ◌+◌, ◌%◌, ◌≤◌, ◌<◌, ◌≡◌, refl, ◌∙◌, ap, subst, some, List, [], ◌∷◌, ◌++◌, take,
  length, get_elem?, ◌>>=◌, val, arith,
}
use binger_udp.Net.{SocketAddr, Endian}
use binger_udp.Batch.Recv.{RecvSlot, RecvBatchRaw, datagram}
use binger_udp.Platform.Loops.Pass.{batch, get_elem?-middle}
use binger_udp.Sockaddr.{decode_sockaddr}
use binger_udp.Kernel.{Kernel, Received}
use binger_udp.Platform.Linux.Recv.Plain.{segment_size, received, on_message-middle}
use binger_udp.Platform.Linux.Recv.Segment.{Room, put, segment_slot}
use binger_udp.Platform.Linux.Recv.Split.{spread}
use binger_udp.Platform.Linux.Recv.Gro.{segments, on_message-split}
use binger_udp.Platform.Linux.Recv.{on_message, on_messages}

-- The slots past those that segments are put into stay as they are.
put-past :
    (s : RecvSlot) (a : SocketAddr) (xs : List (List ℕ)) (ts : List RecvSlot)
    → length xs < length ts
    → (before after : List RecvSlot) × (z : RecvSlot) × (get_elem? ts (length xs) ≡ some z)
      × (put s a xs ts ≡ before ++ z ∷ after)
      × (length before ≡ length xs)
put-past s a [] [] h = elim h [ ]
put-past s a [] (t ∷ ts) h = ([], ts, t, refl, refl, refl)
put-past s a (x ∷ xs) [] h = elim h [ ]
put-past s a (x ∷ xs) (t ∷ ts) h =
    let (before, after, z, here, cut, at) = put-past s a xs ts (omega arith) in
    let u = segment_slot s a x t in (u ∷ before, after, z, here, ap (λ l. u ∷ l) cut, ap suc at)

spread-past :
    (s : RecvSlot) (a : SocketAddr) (xs : List (List ℕ)) (ts : List RecvSlot)
    → 0 < length xs
    → length xs ≤ length ts
    → (before after : List RecvSlot) × (z : RecvSlot) × (get_elem? (s ∷ ts) (length xs) ≡ some z)
      × (spread s a xs ts ≡ before ++ z ∷ after)
      × (length before ≡ length xs)
spread-past s a [] ts h le = elim h [ ]
spread-past s a (x ∷ xs) ts h le =
    let s' : RecvSlot = record s { recv_len = length x % 65536 } in
    let (before, after, z, here, cut, at) = put-past s' a xs ts (omega arith) in
    (s' ∷ before, after, z, here, ap (λ l. s' ∷ l) cut, ap suc at)

past_two :
    (x y u v : RecvSlot) (ts : List RecvSlot) (i : ℕ)
    → 1 < i
    → get_elem? (x ∷ y ∷ ts) i ≡ get_elem? (u ∷ v ∷ ts) i
past_two x y u v ts zero h = absurd (omega arith)
past_two x y u v ts (suc zero) h = absurd (omega arith)
past_two x y u v ts (suc (suc i)) h = refl

module _ (k : Kernel) (e : Endian) where
  two_messages :
      (r q : Received) (b c d : RecvBatchRaw) (i j m : ℕ)
      → on_message k e r i b ≡ val (j, c)
      → on_message k e q j c ≡ val (m, d)
      → on_messages k e (r ∷ q ∷ []) i b ≡ val (m, d)
  unfolding on_messages
  two_messages r q b c d i j m first second =
      ap (λ z. z >>= λ (i', b'). on_messages k e (q ∷ []) i' b') first
      ∙ ap (λ z. z >>= λ (i', b'). on_messages k e [] i' b') second

  -- A message is handled without a look at the buffer that the kernel wrote it to.
  on_message-elsewhere :
      (r : Received) (l : ℕ) (pre : List RecvSlot) (z : RecvSlot) (post : List RecvSlot)
      → segment_size r.cmsgs 0 ≡ 0
      → on_message k e r (length pre) (batch (pre ++ z ∷ post) l)
        ≡ val (length pre + 1, batch (pre ++ received e z (record r { buf = z.buf }) ∷ post) l)
  unfolding on_message
  on_message-elsewhere r l pre z post p =
      on_message-middle k e (record r { buf = z.buf }) l pre z post p

  -- The kernel wrote a message coalesced from `n ≥ 2` datagrams and a message of one datagram to
  -- the buffers of the first two of more than `n` slots, which have room for the segments. Their
  -- handling does not panic or run out of fuel. All `n + 1` datagrams are counted, and the last
  -- slot names the source and the length of the second message, but its bytes are those that
  -- slot `n` held before the call, not the bytes received.
  pub on_messages-lost :
      (r q : Received) (g l : ℕ) (s t : RecvSlot) (ts : List RecvSlot)
      → segment_size r.cmsgs 0 ≡ suc g
      → 0 < r.msg_len
      → r.msg_len ≤ length r.buf
      → r.msg_len < 65536
      → segment_size q.cmsgs 0 ≡ 0
      → Room (suc g) (record t { buf = q.buf } ∷ ts)
      → 1 < length (segments r g)
      → length (segments r g) ≤ length (t ∷ ts)
      → (old now : RecvSlot) × (b : RecvBatchRaw) × (get_elem? (s ∷ t ∷ ts) (length (segments r g))
          ≡ some old)
        × (on_messages k e
              (r ∷ q ∷ [])
              0
              (batch (record s { buf = r.buf } ∷ record t { buf = q.buf } ∷ ts) l)
            ≡ val (length (segments r g) + 1, b))
        × (get_elem? b.slots (length (segments r g)) ≡ some now)
        × (datagram now ≡ (take (q.msg_len % 65536) old.buf, decode_sockaddr e q.src q.namelen))
  on_messages-lost r q g l s t ts size some_bytes fits short plain room two le =
      let t' : RecvSlot = record t { buf = q.buf } in
      let first =
        on_message-split k e r g l [] s (t' ∷ ts) size some_bytes fits short room (omega arith) in
      let a = decode_sockaddr e r.src r.namelen in
      let (before, after, z, here, cut, at) =
        spread-past (received e s r) a (segments r g) (t' ∷ ts) (omega arith) (omega arith) in
      (
        z,
        received e z (record q { buf = z.buf }),
        batch (before ++ received e z (record q { buf = z.buf }) ∷ after) l,
        past_two s t (received e s r) t' ts (length (segments r g)) two ∙ here,
        two_messages r q (batch (record s { buf = r.buf } ∷ t' ∷ ts) l)
            (batch (before ++ z ∷ after) l)
            (batch (before ++ received e z (record q { buf = z.buf }) ∷ after) l) 0
            (length (segments r g)) (length (segments r g) + 1)
            (subst
              (λ ss.
                on_message k e r 0 (batch (record s { buf = r.buf } ∷ t' ∷ ts) l)
                ≡ val (length (segments r g), batch ss l))
              cut
              (first.0
                ∙ ap (λ n. val (n, batch (spread (received e s r) a (segments r g) (t' ∷ ts)) l))
                    (omega arith)))
            (subst
              (λ n.
                on_message k e q n (batch (before ++ z ∷ after) l)
                ≡ val (n + 1, batch (before ++ received e z (record q { buf = z.buf }) ∷ after) l))
              at (on_message-elsewhere q l before z after plain)),
        subst
            (λ n.
              get_elem? (before ++ received e z (record q { buf = z.buf }) ∷ after) n
              ≡ some (received e z (record q { buf = z.buf })))
            at (get_elem?-middle before (received e z (record q { buf = z.buf })) after),
        refl,
      )
