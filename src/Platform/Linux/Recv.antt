-- ===== src/Platform/Linux/Recv.antt =====
-- src/platform/linux.rs: `retry_eintr`, `try_recv_batch` with the features `gro`, `timestamping` and
-- `pktinfo`, and `fallback_recv`. The stack and heap paths of `try_recv_batch` do the same.
pub mod Plain
pub mod Chunks
pub mod Segment
pub mod Split
pub mod Gro
pub mod Lost
pub mod Overflow
pub mod Last
use binger_udp.Base.{
  ℕ, zero, suc, ◌+◌, ◌-◌, ◌%◌, ◌^◌, ℤ, pos, negsuc, Bool, true, false, Option, none, some, List, [],
  ◌∷◌, ◌++◌, map, take, drop, min, length, ◌==◌, ltb, leb, if◌then◌else◌, Run, ◌>>=◌, val, panic,
  out_of_fuel,
}
use binger_udp.Error.{IoError, IoResult, ok, err, is_enosys, is_interrupted}
use binger_udp.Net.{SocketAddr, Endian, u32_be}
use binger_udp.Sockaddr.{ipv4_from_u32, decode_sockaddr}
use binger_udp.Kernel.{Kernel, Fd, Cmsg, Received}
use binger_udp.Raw.{raw_recvfrom, last}
use binger_udp.Batch.Recv.{
  RecvSlot, RecvBatchRaw, buffer_mut, write_buf, write_addr, set_recv_len, set_len, capacity,
  slice_to, timestamp, set_timestamp, dst_addr, set_dst_addr,
}
use binger_udp.Platform.Loops.{recv_loop}

-- What the kernel has written: message `i` goes to the buffer of slot `i`.
abbrev pub fill : List RecvSlot → List Received → List RecvSlot
fill [] rs = []
fill (s ∷ ss) [] = s ∷ ss
fill (s ∷ ss) (r ∷ rs) = record s { buf = r.buf } ∷ fill ss rs

-- `dst_buf[..n].copy_from_slice(bytes)` for `n` bytes
abbrev pub copy_from_slice : List ℕ → List ℕ → Run (List ℕ)
copy_from_slice dst bytes =
    if leb (length bytes) (length dst) then val (bytes ++ drop (length bytes) dst) else panic

-- One segment of a coalesced datagram: the first stays where it is; another is copied to its
-- slot, with the address and the metadata of the first. Past the capacity the loop is left.
unfoldable pub put_segment : List ℕ → SocketAddr → ℕ → ℕ → RecvBatchRaw → Run (Option RecvBatchRaw)
put_segment bytes a first zero b = do b' ← set_recv_len b first (length bytes); val (some b')
put_segment bytes a first (suc k) b =
    let next = first + suc k in
    if leb (capacity b) next
    then val none
    else (buffer_mut b next >>= λ (dst, _). copy_from_slice dst bytes >>= λ buf.
        write_buf b next buf >>= λ b₁. set_recv_len b₁ next (length bytes) >>= λ b₂.
        write_addr b₂ next a >>= λ b₃. timestamp b₃ first >>= λ ts.
        set_timestamp b₃ next ts >>= λ b₄.
        dst_addr b₄ first >>= λ dst. set_dst_addr b₄ next dst >>= λ b₅. val (some b₅))

abbrev pub after_segment :
    Option RecvBatchRaw
    → ℕ
    → RecvBatchRaw
    → (RecvBatchRaw → Run (ℕ × RecvBatchRaw))
    → Run (ℕ × RecvBatchRaw)
after_segment none seg_count b next = val (seg_count, b)
after_segment (some b') seg_count b next = next b'

-- `while offset < total_len`, for at most `fuel` rounds.
unfoldable pub split :
    List ℕ → ℕ → SocketAddr → ℕ → ℕ → ℕ → ℕ → RecvBatchRaw → Run (ℕ × RecvBatchRaw)
unfolding put_segment
split coalesced gro_seg_size a first zero seg_count offset b = out_of_fuel
split coalesced gro_seg_size a first (suc fuel) seg_count offset b =
    if leb (length coalesced) offset
    then val (seg_count, b)
    else let seg_end = min (offset + gro_seg_size) (length coalesced) in
      let segment = take (seg_end - offset) (drop offset coalesced) in
      (put_segment segment a first seg_count b >>= λ step.
      after_segment step seg_count b
        (split coalesced gro_seg_size a first fuel (seg_count + 1) seg_end))

-- `if gro_seg_size > 0`: the next `out_idx`, and the batch. Each round of the split consumes at
-- least one byte.
unfoldable pub after_cmsgs : ℕ → ℕ → SocketAddr → ℕ → RecvBatchRaw → Run (ℕ × RecvBatchRaw)
unfolding split
after_cmsgs zero total_len a out_idx b = val (out_idx + 1, b)
after_cmsgs (suc g) total_len a first b = do
  (buf, _) ← buffer_mut b first
  coalesced ← slice_to buf total_len
  (seg_count, b') ← split coalesced (suc g) a first (suc total_len) 0 0 b
  val (first + seg_count, b')

module _ (k : Kernel) (e : Endian) where
  open k use {World}

  -- `match (cmsg_level, cmsg_type)`: the segment size read so far, and the batch.
  abbrev pub on_cmsg : Cmsg → ℕ → ℕ → RecvBatchRaw → Run (ℕ × RecvBatchRaw)
  on_cmsg (Cmsg.udp_gro segment_size) g out_idx b = val (segment_size, b)
  on_cmsg (Cmsg.timestampns tv_sec tv_nsec) g out_idx b = do
    b' ← set_timestamp b out_idx (some (record { tv_sec = tv_sec; tv_nsec = tv_nsec }))
    val (g, b')
  on_cmsg (Cmsg.in_pktinfo ipi_addr) g out_idx b = do
    b' ← set_dst_addr b out_idx (some (SocketAddr.v4 (ipv4_from_u32 (u32_be e ipi_addr)) 0))
    val (g, b')
  on_cmsg (Cmsg.in6_pktinfo ipi6_addr) g out_idx b = do
    b' ← set_dst_addr b out_idx (some (SocketAddr.v6 ipi6_addr 0 0 0))
    val (g, b')
  on_cmsg Cmsg.unknown g out_idx b = val (g, b)

  -- `while !cmsg_ptr.is_null()`
  unfoldable pub on_cmsgs : List Cmsg → ℕ → ℕ → RecvBatchRaw → Run (ℕ × RecvBatchRaw)
  on_cmsgs [] g out_idx b = val (g, b)
  on_cmsgs (c ∷ cs) g out_idx b = do (g', b') ← on_cmsg c g out_idx b; on_cmsgs cs g' out_idx b'

  -- The body of `for i in 0..n`: the next `out_idx` and the batch.
  unfoldable pub on_message : Received → ℕ → RecvBatchRaw → Run (ℕ × RecvBatchRaw)
  unfolding on_cmsgs after_cmsgs
  on_message r out_idx b = do
    b₁ ← set_recv_len b out_idx r.msg_len
    let a = decode_sockaddr e r.src r.namelen
    b₂ ← write_addr b₁ out_idx a
    (g, b₃) ← on_cmsgs r.cmsgs 0 out_idx b₂
    after_cmsgs g r.msg_len a out_idx b₃

  unfoldable pub on_messages : List Received → ℕ → RecvBatchRaw → Run (ℕ × RecvBatchRaw)
  unfolding on_message
  on_messages [] out_idx b = val (out_idx, b)
  on_messages (r ∷ rs) out_idx b = do
    (out_idx', b') ← on_message r out_idx b
    on_messages rs out_idx' b'

  abbrev pub Answer : Type 0
  Answer = ℤ × List Received × World

  abbrev pub after_call :
      Answer
      → (World → Run (IoResult (List Received) × World))
      → Run (IoResult (List Received) × World)
  after_call (pos n, rs, w) again = val (ok (take n rs), w)
  after_call (negsuc n, rs, w) again =
      let x = last k e w in if is_interrupted x then again w else val (err x, w)

  -- `retry_eintr` around `recvmmsg`, for at most `fuel` calls: the messages that it filled.
  unfoldable pub retry_eintr : ℕ → (World → Answer) → World → Run (IoResult (List Received) × World)
  retry_eintr zero call w = out_of_fuel
  retry_eintr (suc fuel) call w = after_call (call w) (retry_eintr fuel call)

  unfoldable pub fallback_recv : Fd → RecvBatchRaw → World → Run (IoResult ℕ × RecvBatchRaw × World)
  fallback_recv fd b w = recv_loop (raw_recvfrom k e fd) (capacity b) 0 0 b w

  abbrev pub after_recvmmsg :
      IoResult (List Received) × World → Fd → RecvBatchRaw → Run (IoResult ℕ × RecvBatchRaw × World)
  after_recvmmsg (ok rs, w) fd b = do
    (out_idx, b') ← on_messages rs 0 (record b { slots = fill b.slots rs })
    val (ok out_idx, set_len b' out_idx, w)
  after_recvmmsg (err x, w) fd b = if is_enosys x then fallback_recv fd b w else val (err x, b, w)

  -- `capacity as u32` buffers are announced to the kernel.
  unfoldable pub try_recv_batch :
      ℕ → Fd → RecvBatchRaw → World → Run (IoResult ℕ × RecvBatchRaw × World)
  unfolding retry_eintr on_messages fallback_recv
  try_recv_batch fuel fd b w =
      if capacity b == 0
      then val (ok 0, b, w)
      else (retry_eintr fuel (k.recvmmsg fd (take (capacity b % 2 ^ 32) (map (λ s. s.buf) b.slots)))
            w
          >>= λ answer. after_recvmmsg answer fd b)
