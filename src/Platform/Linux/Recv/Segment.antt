-- ===== src/Platform/Linux/Recv/Segment.antt =====
-- src/platform/linux.rs: what putting one segment of a coalesced datagram changes.
use binger_udp.Base.{
  ℕ, zero, suc, ◌+◌, ◌%◌, ◌≤◌, ◌≡◌, some, List, [], ◌∷◌, ◌++◌, drop, length, get_elem?, le→leb,
  lt→leb, val, arith, length-append,
}
use binger_udp.Net.{SocketAddr}
use binger_udp.Batch.Recv.{
  RecvSlot, buffer_mut, write_buf, write_addr, set_recv_len, capacity, timestamp, set_timestamp,
  dst_addr, set_dst_addr, All,
}
use binger_udp.Platform.Loops.Pass.{batch, slot_mut-middle, get_elem?-middle}
use binger_udp.Platform.Linux.Recv.{copy_from_slice, put_segment}

-- The slot of a segment, with the metadata of the slot of the first.
abbrev pub segment_slot : RecvSlot → SocketAddr → List ℕ → RecvSlot → RecvSlot
segment_slot s a x t = record {
  buf = x ++ drop (length x) t.buf;
  addr = a;
  recv_len = length x % 65536;
  timestamp = s.timestamp;
  dst_addr = s.dst_addr;
}

abbrev pub put : RecvSlot → SocketAddr → List (List ℕ) → List RecvSlot → List RecvSlot
put s a [] ts = ts
put s a (x ∷ xs) [] = []
put s a (x ∷ xs) (t ∷ ts) = segment_slot s a x t ∷ put s a xs ts

pub get_elem?-before :
    (pre post : List RecvSlot) (i : ℕ) (s : RecvSlot)
    → get_elem? pre i ≡ some s
    → get_elem? (pre ++ post) i ≡ some s
get_elem?-before [] post i s e = cc
get_elem?-before (x ∷ pre) post zero s e = e
get_elem?-before (x ∷ pre) post (suc i) s e = get_elem?-before pre post i s e

pub buffer_mut-middle :
    (pre : List RecvSlot) (t : RecvSlot) (ts : List RecvSlot) (l : ℕ)
    → buffer_mut (batch (pre ++ t ∷ ts) l) (length pre) ≡ val (t.buf, t.addr)
unfolding buffer_mut
buffer_mut-middle pre t ts l = rw (get_elem?-middle pre t ts)

pub timestamp-before :
    (pre post : List RecvSlot) (i l : ℕ) (s : RecvSlot)
    → get_elem? pre i ≡ some s
    → timestamp (batch (pre ++ post) l) i ≡ val s.timestamp
unfolding timestamp
timestamp-before pre post i l s e = rw (get_elem?-before pre post i s e)

pub dst_addr-before :
    (pre post : List RecvSlot) (i l : ℕ) (s : RecvSlot)
    → get_elem? pre i ≡ some s
    → dst_addr (batch (pre ++ post) l) i ≡ val s.dst_addr
unfolding dst_addr
dst_addr-before pre post i l s e = rw (get_elem?-before pre post i s e)

pub copy_fits :
    (dst x : List ℕ)
    → length x ≤ length dst
    → copy_from_slice dst x ≡ val (x ++ drop (length x) dst)
copy_fits dst x h = rw (le→leb _ _ h)

pub put_segment-middle :
    (x : List ℕ) (a : SocketAddr) (first k l : ℕ) (pre : List RecvSlot) (s t : RecvSlot)
    (ts : List RecvSlot)
    → first + suc k ≡ length pre
    → get_elem? pre first ≡ some s
    → length x ≤ length t.buf
    → put_segment x a first (suc k) (batch (pre ++ t ∷ ts) l)
      ≡ val (some (batch (pre ++ segment_slot s a x t ∷ ts) l))
unfolding put_segment capacity write_buf set_recv_len write_addr set_timestamp set_dst_addr
put_segment-middle x a first k l pre s t ts h here fits =
    let buf = x ++ drop (length x) t.buf in
    let t₁ : RecvSlot = record t { buf = buf } in
    let t₂ : RecvSlot = record t₁ { recv_len = length x % 65536 } in
    let t₃ : RecvSlot = record t₂ { addr = a } in
    let t₄ : RecvSlot = record t₃ { timestamp = s.timestamp } in
    rw (
      h,
      lt→leb (length (pre ++ t ∷ ts)) (length pre) (omega (arith, length-append pre (t ∷ ts))),
      buffer_mut-middle pre t ts l,
      copy_fits t.buf x fits,
      slot_mut-middle pre t ts l (λ u. record u { buf = buf }),
      slot_mut-middle pre t₁ ts l (λ u. record u { recv_len = length x % 65536 }),
      slot_mut-middle pre t₂ ts l (λ u. record u { addr = a }),
      timestamp-before pre (t₃ ∷ ts) first l s here,
      slot_mut-middle pre t₃ ts l (λ u. record u { timestamp = s.timestamp }),
      dst_addr-before pre (t₄ ∷ ts) first l s here,
      slot_mut-middle pre t₄ ts l (λ u. record u { dst_addr = s.dst_addr }),
    )

-- The buffers have room for a segment.
abbrev pub Room : ℕ → List RecvSlot → Type 0
Room g = All (λ t. g ≤ length t.buf)
