-- ===== src/Platform/Linux/Recv/Last.antt =====
-- src/platform/linux.rs: a reception whose last message was coalesced.
use mathlib.Core.List.{map-append}
use mathlib.Core.Path.{ap₂}
use binger_udp.Base.{
  ℕ, suc, ◌+◌, ◌%◌, ◌^◌, ◌≤◌, ◌<◌, ◌≡◌, refl, ◌∙◌, ap, subst, sym, pos_ne_zero, List, [], ◌∷◌, ◌++◌,
  map, take, length, length-append, take_all, Run, ◌>>=◌, val, panic, out_of_fuel, arith,
}
use binger_udp.Error.{ok}
use binger_udp.Net.{Endian}
use binger_udp.Batch.Recv.{RecvSlot, RecvBatchRaw, capacity, set_len, datagram}
use binger_udp.Platform.Loops.Pass.{batch}
use binger_udp.Sockaddr.{decode_sockaddr}
use binger_udp.Kernel.{Kernel, Fd, Received}
use binger_udp.Platform.Linux.Recv.Plain.{
  segment_size, received, deliver, AllPlain, Answers, retry_eintr-Answers, on_messages-deliver,
  datagrams,
}
use binger_udp.Platform.Linux.Recv.Segment.{Room}
use binger_udp.Platform.Linux.Recv.Chunks.{suc_sum, concat}
use binger_udp.Platform.Linux.Recv.Split.{spread}
use binger_udp.Platform.Linux.Recv.Gro.{segments, on_message-split}
use binger_udp.Platform.Linux.Recv.{fill, on_message, on_messages, try_recv_batch}

fill_none : (ss : List RecvSlot) → fill ss [] ≡ ss
fill_none [] = refl
fill_none (s ∷ ss) = refl

fill-append :
    (ss post : List RecvSlot) (rs : List Received) (s : RecvSlot) (r : Received)
    → length rs ≡ length ss
    → fill (ss ++ s ∷ post) (rs ++ r ∷ []) ≡ fill (ss ++ record s { buf = r.buf } ∷ post) rs
fill-append [] post [] s r h = ap (λ l. record s { buf = r.buf } ∷ l) (fill_none post)
fill-append [] post (q ∷ rs) s r h = absurd (omega arith)
fill-append (t ∷ ss) post [] s r h = absurd (omega arith)
fill-append (t ∷ ss) post (q ∷ rs) s r h =
    ap (λ l. record t { buf = q.buf } ∷ l) (fill-append ss post rs s r (omega arith))

bind_assoc :
    {A B C : Type 0} (z : Run A) (h : A → Run C) (f : A → Run B) (q : B → Run C)
    → ((x : A) → h x ≡ (f x >>= q))
    → (z >>= h) ≡ ((z >>= f) >>= q)
bind_assoc (val x) h f q p = p x
bind_assoc panic h f q p = refl
bind_assoc out_of_fuel h f q p = refl

take-append_more :
    (xs ys : List RecvSlot) (m : ℕ) → take (length xs + m) (xs ++ ys) ≡ xs ++ take m ys
take-append_more [] ys m = ap (λ i. take i ys) (omega arith)
take-append_more (x ∷ xs) ys m =
    ap (λ n. take n (x ∷ xs ++ ys)) (suc_sum (length xs) m)
    ∙ ap (λ l. x ∷ l) (take-append_more xs ys m)

module _ (e : Endian) where
  deliver-append :
      (ss post : List RecvSlot) (rs : List Received)
      → length rs ≡ length ss
      → deliver e (ss ++ post) rs ≡ deliver e ss rs ++ post
  deliver-append [] [] [] h = refl
  deliver-append [] (t ∷ post) [] h = refl
  deliver-append [] post (q ∷ rs) h = absurd (omega arith)
  deliver-append (s ∷ ss) post [] h = absurd (omega arith)
  deliver-append (s ∷ ss) post (q ∷ rs) h =
      ap (λ l. received e s q ∷ l) (deliver-append ss post rs (omega arith))

  length-deliver : (ss : List RecvSlot) (rs : List Received) → length (deliver e ss rs) ≡ length ss
  length-deliver [] rs = refl
  length-deliver (s ∷ ss) [] = refl
  length-deliver (s ∷ ss) (r ∷ rs) = ap suc (length-deliver ss rs)

module _ (k : Kernel) (e : Endian) where
  open k use {World}

  on_messages-append :
      (rs qs : List Received) (i : ℕ) (b : RecvBatchRaw)
      → on_messages k e (rs ++ qs) i b
        ≡ (on_messages k e rs i b >>= λ (j, c). on_messages k e qs j c)
  unfolding on_messages
  on_messages-append [] qs i b = refl
  on_messages-append (r ∷ rs) qs i b =
      bind_assoc (on_message k e r i b) (λ (j, c). on_messages k e (rs ++ qs) j c)
        (λ (j, c). on_messages k e rs j c) (λ (j, c). on_messages k e qs j c)
        (λ x. on_messages-append rs qs x.0 x.1)

  on_messages-one :
      (r : Received) (i j : ℕ) (b c : RecvBatchRaw)
      → on_message k e r i b ≡ val (j, c)
      → on_messages k e (r ∷ []) i b ≡ val (j, c)
  unfolding on_messages
  on_messages-one r i j b c p = ap (λ z. z >>= λ (j', c'). on_messages k e [] j' c') p

  module _ (rs : List Received) (r : Received) (g l : ℕ) (ss : List RecvSlot) (s : RecvSlot)
      (post : List RecvSlot) where
    -- The slots after the reception, and how many of them it uses.
    abbrev pub slots_after : List RecvSlot
    slots_after =
        deliver e ss rs
        ++ spread (received e s r) (decode_sockaddr e r.src r.namelen) (segments r g) post

    abbrev pub count : ℕ
    count = length rs + length (segments r g)

    -- What the coalesced message finds.
    abbrev filled : List RecvSlot
    filled = record s { buf = r.buf } ∷ post

    module _ (same : length rs ≡ length ss) (plain : AllPlain rs) where
      delivered :
          on_messages k e rs 0 (batch (fill (ss ++ filled) rs) l)
          ≡ val (length rs, batch (deliver e ss rs ++ filled) l)
      delivered =
          on_messages-deliver k e rs (ss ++ filled) [] l 0 refl plain
            (omega (arith, length-append ss filled, same))
          ∙ ap₂ (λ n xs. val (n, batch xs l)) (omega arith) (deliver-append e ss filled rs same)

      counted : length (deliver e ss rs) ≡ length rs
      counted = length-deliver e ss rs ∙ sym same

      handled :
          on_message k e r (length (deliver e ss rs)) (batch (deliver e ss rs ++ filled) l)
            ≡ val (length (deliver e ss rs) + length (segments r g), batch slots_after l)
          → on_messages k e (rs ++ r ∷ []) 0 (batch (fill (ss ++ s ∷ post) (rs ++ r ∷ [])) l)
            ≡ val (count, batch slots_after l)
      handled last =
          ap (λ xs. on_messages k e (rs ++ r ∷ []) 0 (batch xs l)) (fill-append ss post rs s r same)
          ∙ on_messages-append rs (r ∷ []) 0 (batch (fill (ss ++ filled) rs) l)
          ∙ ap (λ z. z >>= λ (j, c). on_messages k e (r ∷ []) j c) delivered
          ∙ on_messages-one r (length rs) count (batch (deliver e ss rs ++ filled) l)
              (batch slots_after l)
              (subst
                (λ n.
                  on_message k e r n (batch (deliver e ss rs ++ filled) l)
                  ≡ val (n + length (segments r g), batch slots_after l))
                counted last)

      plain_read :
          map datagram (deliver e ss rs)
          ≡ map (λ q. (take q.msg_len q.buf, decode_sockaddr e q.src q.namelen)) rs
      plain_read =
          ap (map datagram) (sym (take_all (deliver e ss rs) (length rs) (omega (arith, counted))))
          ∙ datagrams k e ss rs plain (omega arith)

      read_from :
          (segs : List RecvSlot)
          → map datagram (take (length rs + length (segments r g)) (deliver e ss rs ++ segs))
            ≡ map (λ q. (take q.msg_len q.buf, decode_sockaddr e q.src q.namelen)) rs
              ++ map datagram (take (length (segments r g)) segs)
      read_from segs =
          ap (map datagram) (
            ap (λ n. take (n + length (segments r g)) (deliver e ss rs ++ segs)) (sym counted)
            ∙ take-append_more (deliver e ss rs) segs (length (segments r g)))
          ∙ map-append datagram (deliver e ss rs) (take (length (segments r g)) segs)
          ∙ ap (λ xs. xs ++ map datagram (take (length (segments r g)) segs)) plain_read

    -- `recvmmsg`, after any number of interruptions, fills the first slots of a batch with messages
    -- of one datagram each, and the next with a message coalesced from datagrams of one segment
    -- size, which the slots from its own on have room for. Then `try_recv_batch` with more fuel than
    -- interruptions does not panic and loses nothing: it returns the number of all datagrams, which
    -- is the new length, and the first slots hold those of the messages and then those that were
    -- coalesced, in their order, with their sources; the bytes of the latter together are the bytes
    -- of the coalesced message.
    pub try_recv_batch-last :
        (fuel j : ℕ) (fd : Fd) (w v : World)
        → Answers k e
            (k.recvmmsg fd
              (take (length (ss ++ s ∷ post) % 2 ^ 32) (map (λ t. t.buf) (ss ++ s ∷ post))))
            (rs ++ r ∷ [])
            v
            j
            w
        → j < fuel
        → length rs ≡ length ss
        → AllPlain rs
        → segment_size r.cmsgs 0 ≡ suc g
        → 0 < r.msg_len
        → r.msg_len ≤ length r.buf
        → r.msg_len < 65536
        → Room (suc g) post
        → length (segments r g) ≤ suc (length post)
        → (try_recv_batch k e fuel fd (batch (ss ++ s ∷ post) l) w
            ≡ val (ok count, batch slots_after count, v))
          × (map datagram (take count slots_after)
              ≡ map (λ q. (take q.msg_len q.buf, decode_sockaddr e q.src q.namelen)) rs
                ++ map (λ x. (x, decode_sockaddr e r.src r.namelen)) (segments r g))
          × (concat (segments r g) ≡ take r.msg_len r.buf)
    unfolding try_recv_batch capacity set_len
    try_recv_batch-last fuel j fd w v answers fuel_left same plain size some_bytes fits short room
          enough =
        let (last, segs, whole) =
          on_message-split k e r g l (deliver e ss rs) s post size some_bytes fits short room
            enough in
        (
          rw
              (
                pos_ne_zero (length (ss ++ s ∷ post)) (omega (arith, length-append ss (s ∷ post))),
                retry_eintr-Answers k e fuel answers fuel_left,
                handled same plain last,
              )
              refl,
          read_from same plain _
              ∙ ap
                  (λ xs.
                    map (λ q. (take q.msg_len q.buf, decode_sockaddr e q.src q.namelen)) rs ++ xs)
                  segs,
          whole,
        )
