-- ===== src/Platform/Linux/Recv/Gro.antt =====
-- src/platform/linux.rs: how a coalesced datagram is split over the slots.
use binger_udp.Base.{
  ℕ, suc, ◌+◌, ◌%◌, ◌≤◌, ◌<◌, ◌≡◌, refl, ◌∙◌, ap, List, [], ◌∷◌, ◌++◌, map, take, drop, length,
  le→leb, ◌>>=◌, val, arith, length-take, take_all, take-append,
}
use binger_udp.Net.{SocketAddr}
use binger_udp.Batch.Recv.{RecvSlot, write_addr, set_recv_len, datagram, All}
use binger_udp.Platform.Loops.Pass.{batch, slot_mut-middle}
use binger_udp.Net.{Endian}
use binger_udp.Sockaddr.{decode_sockaddr}
use binger_udp.Kernel.{Kernel, Received}
use binger_udp.Platform.Linux.Recv.Plain.{segment_size, received, on_cmsgs-middle}
use binger_udp.Platform.Linux.Recv.{after_cmsgs, on_message}
use binger_udp.Platform.Linux.Recv.Chunks.{
  chunks, chunks-small, concat, concat-chunks, Starts, chunks-Starts,
}
use binger_udp.Platform.Linux.Recv.Segment.{put, buffer_mut-middle, Room}
use binger_udp.Platform.Linux.Recv.Split.{spread, split-spread}

-- All that the client reads of the slots that segments came to.
read_back :
    (s : RecvSlot) (a : SocketAddr) (xs : List (List ℕ)) (ts : List RecvSlot)
    → All (λ x. length x < 65536) xs
    → length xs ≤ length ts
    → map datagram (take (length xs) (put s a xs ts)) ≡ map (λ x. (x, a)) xs
read_back s a [] ts small le = refl
read_back s a (x ∷ xs) [] small le = elim le [ ]
read_back s a (x ∷ xs) (t ∷ ts) small le =
    let whole : length x % 65536 ≡ length x = omega (arith, small.0) in
    rw (
      whole,
      take-append x (drop (length x) t.buf) (length x) (omega arith),
      take_all x (length x) (omega arith),
      read_back s a xs ts small.1 (omega arith),
    )

read_spread :
    (s : RecvSlot) (a : SocketAddr) (xs : List (List ℕ)) (ts : List RecvSlot)
    → s.addr ≡ a
    → All (λ x. length x < 65536) xs
    → length xs ≤ suc (length ts)
    → Starts s.buf xs
    → map datagram (take (length xs) (spread s a xs ts)) ≡ map (λ x. (x, a)) xs
read_spread s a [] ts from small le starts = refl
read_spread s a (x ∷ xs) ts from small le starts =
    let whole : length x % 65536 ≡ length x = omega (arith, small.0) in
    rw
      (
        whole,
        starts,
        from,
        read_back (record s { recv_len = length x }) a xs ts small.1 (omega arith),
      )
      refl

-- The datagrams that the kernel coalesced: segments of `g + 1` bytes, the last one shorter.
abbrev pub segments : Received → ℕ → List (List ℕ)
segments r g = chunks (suc r.msg_len) (suc g) (take r.msg_len r.buf)

module _ (k : Kernel) (e : Endian) where
  on_message-after :
      (r : Received) (g l : ℕ) (pre : List RecvSlot) (s : RecvSlot) (post : List RecvSlot)
      → segment_size r.cmsgs 0 ≡ g
      → on_message k e r (length pre) (batch (pre ++ record s { buf = r.buf } ∷ post) l)
        ≡ after_cmsgs g r.msg_len
            (decode_sockaddr e r.src r.namelen)
            (length pre)
            (batch (pre ++ received e s r ∷ post) l)
  unfolding on_message set_recv_len write_addr
  on_message-after r g l pre s post size =
      let a = decode_sockaddr e r.src r.namelen in
      let n = r.msg_len % 65536 in
      rw
        (
          slot_mut-middle pre (record s { buf = r.buf }) post l (λ t. record t { recv_len = n }),
          slot_mut-middle pre (record s { buf = r.buf; recv_len = n }) post l
              (λ t. record t { addr = a }),
          on_cmsgs-middle k e r.cmsgs 0 l pre (record s { buf = r.buf; recv_len = n; addr = a })
              post,
          size,
        )
        refl

  after_cmsgs-spread :
      (g total l : ℕ) (a : SocketAddr) (pre : List RecvSlot) (s : RecvSlot) (post : List RecvSlot)
      → 0 < total
      → total ≤ length s.buf
      → Room (suc g) post
      → length (chunks (suc total) (suc g) (take total s.buf)) ≤ suc (length post)
      → after_cmsgs (suc g) total a (length pre) (batch (pre ++ s ∷ post) l)
        ≡ val (
          length pre + length (chunks (suc total) (suc g) (take total s.buf)),
          batch (pre ++ spread s a (chunks (suc total) (suc g) (take total s.buf)) post) l,
        )
  unfolding after_cmsgs
  after_cmsgs-spread g total l a pre s post some_bytes fits room le =
      let size = length-take total s.buf in
      let run =
        split-spread total l (suc g) (take total s.buf) a pre s post (omega arith)
          (omega (arith, size)) room le (omega (arith, size)) in
      rw (buffer_mut-middle pre s post l, le→leb _ _ fits)
        (ap (λ z. z >>= λ (c, b'). val (length pre + c, b')) run)

  -- A message of the kernel, coalesced from datagrams of one segment size, is received where the
  -- next slots have room for a segment and suffice. Its handling does not panic or run out of
  -- fuel: the slots from the message's own on hold the datagrams in their order, each with the
  -- source of the message, as many slots are used as there are datagrams, and the bytes of the
  -- datagrams together are the bytes received.
  pub on_message-split :
      (r : Received) (g l : ℕ) (pre : List RecvSlot) (s : RecvSlot) (post : List RecvSlot)
      → segment_size r.cmsgs 0 ≡ suc g
      → 0 < r.msg_len
      → r.msg_len ≤ length r.buf
      → r.msg_len < 65536
      → Room (suc g) post
      → length (segments r g) ≤ suc (length post)
      → let a = decode_sockaddr e r.src r.namelen in
        let slots = spread (received e s r) a (segments r g) post in
        (on_message k e r (length pre) (batch (pre ++ record s { buf = r.buf } ∷ post) l)
          ≡ val (length pre + length (segments r g), batch (pre ++ slots) l))
        × (map datagram (take (length (segments r g)) slots) ≡ map (λ x. (x, a)) (segments r g))
        × (concat (segments r g) ≡ take r.msg_len r.buf)
  on_message-split r g l pre s post size some_bytes fits short room le =
      let a = decode_sockaddr e r.src r.namelen in
      let coalesced = take r.msg_len r.buf in
      let counted = length-take r.msg_len r.buf in
      (
        on_message-after r (suc g) l pre s post size
            ∙ after_cmsgs-spread g r.msg_len l a pre (received e s r) post some_bytes fits room le,
        read_spread (received e s r) a (segments r g) post refl
            (chunks-small (suc r.msg_len) (suc g) coalesced (omega (arith, counted))) le
            (chunks-Starts (suc r.msg_len) (suc g) r.msg_len r.buf coalesced refl),
        concat-chunks (suc r.msg_len) (suc g) coalesced (omega arith) (omega (arith, counted)),
      )
