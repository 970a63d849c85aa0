-- ===== src/Platform/Linux/Recv/Plain.antt =====
-- src/platform/linux.rs: `try_recv_batch` where the kernel has coalesced no datagrams.
use mathlib.Core.List.{append_assoc}
use binger_udp.Base.{
  ℕ, zero, suc, ◌+◌, ◌%◌, ◌^◌, ◌≤◌, ◌<◌, ◌≡◌, refl, ap, pos, negsuc, true, Option, some, List, [],
  ◌∷◌, ◌++◌, map, take, length, val, arith, length-append, take_all, pos_ne_zero,
}
use binger_udp.Error.{ok, is_interrupted}
use binger_udp.Net.{SocketAddr, Endian, u32_be}
use binger_udp.Sockaddr.{ipv4_from_u32, decode_sockaddr}
use binger_udp.Kernel.{Kernel, Fd, Cmsg, Received}
use binger_udp.Raw.{last}
use binger_udp.Batch.Recv.{
  RecvSlot, RecvBatchRaw, Timestamp, write_addr, set_recv_len, set_len, capacity, set_timestamp,
  set_dst_addr, datagram, Fits, All, IsValid,
}
use binger_udp.Platform.Loops.Pass.{batch, slot_mut-middle}
use binger_udp.Platform.Linux.Recv.{
  fill, on_cmsgs, on_message, on_messages, after_cmsgs, retry_eintr, Answer, try_recv_batch,
}

-- What the control messages of one datagram say, on top of what was known: the last one of each
-- kind counts.
abbrev pub segment_size : List Cmsg → ℕ → ℕ
segment_size [] g = g
segment_size (Cmsg.udp_gro s ∷ cs) g = segment_size cs s
segment_size (_ ∷ cs) g = segment_size cs g

abbrev pub stamped : List Cmsg → Option Timestamp → Option Timestamp
stamped [] t = t
stamped (Cmsg.timestampns sec nsec ∷ cs) t =
    stamped cs (some (record { tv_sec = sec; tv_nsec = nsec }))
stamped (_ ∷ cs) t = stamped cs t

module _ (e : Endian) where
  abbrev pub destined : List Cmsg → Option SocketAddr → Option SocketAddr
  destined [] d = d
  destined (Cmsg.in_pktinfo ip ∷ cs) d =
      destined cs (some (SocketAddr.v4 (ipv4_from_u32 (u32_be e ip)) 0))
  destined (Cmsg.in6_pktinfo octets ∷ cs) d = destined cs (some (SocketAddr.v6 octets 0 0 0))
  destined (_ ∷ cs) d = destined cs d

  -- What a datagram makes of its slot.
  abbrev pub received : RecvSlot → Received → RecvSlot
  received s r = record {
    buf = r.buf;
    addr = decode_sockaddr e r.src r.namelen;
    recv_len = r.msg_len % 65536;
    timestamp = stamped r.cmsgs s.timestamp;
    dst_addr = destined r.cmsgs s.dst_addr;
  }

  abbrev pub deliver : List RecvSlot → List Received → List RecvSlot
  deliver [] rs = []
  deliver (s ∷ ss) [] = s ∷ ss
  deliver (s ∷ ss) (r ∷ rs) = received s r ∷ deliver ss rs

-- A datagram that was not coalesced, as the kernel documents it: no longer than its buffer.
pub record Plain (r : Received) : Type 0 where
  pub not_coalesced : segment_size r.cmsgs 0 ≡ 0
  pub in_buffer : r.msg_len ≤ length r.buf
  pub short : r.msg_len < 65536

abbrev pub AllPlain : List Received → Type 0
AllPlain [] = Unit {0}
AllPlain (r ∷ rs) = Plain r × AllPlain rs

module _ (k : Kernel) (e : Endian) where
  open k use {World}

  pub on_cmsgs-middle :
      (cs : List Cmsg) (g l : ℕ) (pre : List RecvSlot) (s : RecvSlot) (post : List RecvSlot)
      → on_cmsgs k e cs g (length pre) (batch (pre ++ s ∷ post) l)
        ≡ val (
          segment_size cs g,
          batch
              (pre
                ++ record s {
                  timestamp = stamped cs s.timestamp;
                  dst_addr = destined e cs s.dst_addr;
                }
                  ∷ post)
              l,
        )
  unfolding on_cmsgs set_timestamp set_dst_addr
  on_cmsgs-middle [] g l pre s post = refl
  on_cmsgs-middle (Cmsg.udp_gro size ∷ cs) g l pre s post = on_cmsgs-middle cs size l pre s post
  on_cmsgs-middle (Cmsg.timestampns sec nsec ∷ cs) g l pre s post =
      rw
        (slot_mut-middle pre s post l
          (λ t. record t { timestamp = some (record { tv_sec = sec; tv_nsec = nsec }) }))
        (on_cmsgs-middle cs g l pre
          (record s { timestamp = some (record { tv_sec = sec; tv_nsec = nsec }) }) post)
  on_cmsgs-middle (Cmsg.in_pktinfo ip ∷ cs) g l pre s post =
      rw
        (slot_mut-middle pre s post l
          (λ t. record t { dst_addr = some (SocketAddr.v4 (ipv4_from_u32 (u32_be e ip)) 0) }))
        (on_cmsgs-middle cs g l pre
          (record s { dst_addr = some (SocketAddr.v4 (ipv4_from_u32 (u32_be e ip)) 0) }) post)
  on_cmsgs-middle (Cmsg.in6_pktinfo octets ∷ cs) g l pre s post =
      rw
        (slot_mut-middle pre s post l
          (λ t. record t { dst_addr = some (SocketAddr.v6 octets 0 0 0) }))
        (on_cmsgs-middle cs g l pre (record s { dst_addr = some (SocketAddr.v6 octets 0 0 0) })
          post)
  on_cmsgs-middle (Cmsg.unknown ∷ cs) g l pre s post = on_cmsgs-middle cs g l pre s post

  pub on_message-middle :
      (r : Received) (l : ℕ) (pre : List RecvSlot) (s : RecvSlot) (post : List RecvSlot)
      → segment_size r.cmsgs 0 ≡ 0
      → on_message k e r (length pre) (batch (pre ++ record s { buf = r.buf } ∷ post) l)
        ≡ val (length pre + 1, batch (pre ++ received e s r ∷ post) l)
  unfolding on_message set_recv_len write_addr after_cmsgs
  on_message-middle r l pre s post p =
      let a = decode_sockaddr e r.src r.namelen in
      let n = r.msg_len % 65536 in
      rw (
        slot_mut-middle pre (record s { buf = r.buf }) post l (λ t. record t { recv_len = n }),
        slot_mut-middle pre (record s { buf = r.buf; recv_len = n }) post l
            (λ t. record t { addr = a }),
        on_cmsgs-middle r.cmsgs 0 l pre (record s { buf = r.buf; recv_len = n; addr = a }) post,
        p,
      )

  pub on_messages-deliver :
      (rs : List Received) (ss pre : List RecvSlot) (l i : ℕ)
      → i ≡ length pre
      → AllPlain rs
      → length rs ≤ length ss
      → on_messages k e rs i (batch (pre ++ fill ss rs) l)
        ≡ val (i + length rs, batch (pre ++ deliver e ss rs) l)
  unfolding on_messages
  on_messages-deliver [] [] pre l i h p le = ap (λ n. val (n, batch (pre ++ []) l)) (omega arith)
  on_messages-deliver [] (s ∷ ss) pre l i h p le =
      ap (λ n. val (n, batch (pre ++ s ∷ ss) l)) (omega arith)
  on_messages-deliver (r ∷ rs) [] pre l i h p le = elim le [ ]
  on_messages-deliver (r ∷ rs) (s ∷ ss) pre l i h p le =
      rw
        (
          h,
          on_message-middle r l pre s (fill ss rs) p.0.not_coalesced,
          ← append_assoc pre (received e s r ∷ []) (fill ss rs),
          on_messages-deliver rs ss (pre ++ received e s r ∷ []) l (length pre + 1)
              (omega (arith, length-append pre (received e s r ∷ []))) p.1 (omega arith),
          append_assoc pre (received e s r ∷ []) (deliver e ss rs),
        )
        (ap (λ n. val (n, batch (pre ++ received e s r ∷ deliver e ss rs) l)) (omega arith))

  -- The kernel is interrupted `j` times, and then fills the messages `rs`.
  pub data Answers (call : World → Answer k e) (rs : List Received) (v : World)
      : ℕ → World → Type 0 where
    answered : {w : World} → call w ≡ (pos (length rs), rs, v) → Answers call rs v zero w
    interrupted :
        {j m : ℕ} {w u : World} {out : List Received}
        → call w ≡ (negsuc m, out, u)
        → is_interrupted (last k e u) ≡ true
        → Answers call rs v j u
        → Answers call rs v (suc j) w

  pub retry_eintr-Answers :
      (fuel : ℕ) {j : ℕ} {call : World → Answer k e} {rs : List Received} {v w : World}
      → Answers call rs v j w
      → j < fuel
      → retry_eintr k e fuel call w ≡ val (ok rs, v)
  unfolding retry_eintr
  retry_eintr-Answers zero answers h = elim h [ ]
  retry_eintr-Answers (suc fuel) {rs = rs} (answered p) h =
      rw (p, take_all rs (length rs) (omega arith))
  retry_eintr-Answers (suc fuel) (interrupted p i rest) h =
      rw (p, i) (retry_eintr-Answers fuel rest (omega arith))

  -- What the client reads of the slots that datagrams came to.
  pub datagrams :
      (ss : List RecvSlot) (rs : List Received)
      → AllPlain rs
      → length rs ≤ length ss
      → map datagram (take (length rs) (deliver e ss rs))
        ≡ map (λ r. (take r.msg_len r.buf, decode_sockaddr e r.src r.namelen)) rs
  datagrams [] [] p le = refl
  datagrams (s ∷ ss) [] p le = refl
  datagrams [] (r ∷ rs) p le = elim le [ ]
  datagrams (s ∷ ss) (r ∷ rs) p le =
      let whole : r.msg_len % 65536 ≡ r.msg_len = omega (arith, p.0.short) in
      rw (whole, datagrams ss rs p.1 (omega arith))

  pub deliver-Fits :
      (ss : List RecvSlot) (rs : List Received)
      → All Fits ss
      → AllPlain rs
      → All Fits (deliver e ss rs) × (length (deliver e ss rs) ≡ length ss)
  deliver-Fits [] rs f p = (tt, refl)
  deliver-Fits (s ∷ ss) [] f p = (f, refl)
  deliver-Fits (s ∷ ss) (r ∷ rs) f p =
      let (fits, same) = deliver-Fits ss rs f.1 p.1 in
      ((omega (arith, p.0.in_buffer, p.0.short), fits), ap suc same)

  -- Where `recvmmsg` on a valid batch, after any number of interruptions, fills some messages with
  -- datagrams that were not coalesced, `try_recv_batch` with more fuel than interruptions does not
  -- panic and returns their number, which is the new length of a valid batch. The first slots hold
  -- these datagrams in their order, with their sources. A slot keeps the timestamp and the
  -- destination address that it had where its datagram brings none.
  pub try_recv_batch-plain :
      (fuel j : ℕ) (fd : Fd) (b : RecvBatchRaw) (rs : List Received) (w v : World)
      → IsValid b
      → 0 < length b.slots
      → Answers (k.recvmmsg fd (take (length b.slots % 2 ^ 32) (map (λ s. s.buf) b.slots))) rs v j w
      → j < fuel
      → length rs ≤ length b.slots
      → AllPlain rs
      → let b' = batch (deliver e b.slots rs) (length rs) in
        (try_recv_batch k e fuel fd b w ≡ val (ok (length rs), b', v))
        × (map datagram (take (length rs) b'.slots)
            ≡ map (λ r. (take r.msg_len r.buf, decode_sockaddr e r.src r.namelen)) rs)
        × IsValid b'
  unfolding try_recv_batch capacity set_len
  try_recv_batch-plain fuel j fd b rs w v valid some_slot answers enough le plain =
      let (fits, same) = deliver-Fits b.slots rs valid.fit plain in
      (
        rw
            (
              pos_ne_zero (length b.slots) some_slot,
              retry_eintr-Answers fuel answers enough,
              on_messages-deliver rs b.slots [] b.len 0 refl plain le,
            )
            (ap (λ n. val (ok n, batch (deliver e b.slots rs) n, v)) (omega arith)),
        datagrams b.slots rs plain le,
        record { within = omega (arith, same, le); fit = fits },
      )
