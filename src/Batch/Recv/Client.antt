-- ===== src/Batch/Recv/Client.antt =====
-- src/batch.rs: what a client reads from a receive batch.
use native.Mathlib.Numerals.{add-one}
use binger_udp.Base.{
  ℕ, zero, suc, ◌+◌, ◌%◌, ◌<◌, ◌≤◌, ◌≡◌, refl, ap, Option, some, none, List, [], ◌∷◌, map, take,
  drop, set, replicate, length, get_elem?, arith, panic, val, get_elem?-none, get_elem?-some,
  get_elem?-set_self, length-set, length-replicate, lt_of_get_elem?, some_inj, get_elem?-map,
  get_elem?-replicate,
}
use binger_udp.Net.{SocketAddr, unspecified}
use binger_udp.Batch.Recv.{
  RecvSlot, RecvBatchRaw, Timestamp, with_capacity, fresh_slot, set_recv_len, payload, addr,
  timestamp, dst_addr, clear, reset_slot, iter_from, iter, datagram, Fits, IsValid,
}
use binger_udp.Batch.Recv.Slots.{
  All-get, All-set, slot_mut-some, payload-some, addr-some, with_capacity-IsValid, clear-IsValid,
}

-- `take` from an index on, one step at a time.
take-drop :
    (xs : List RecvSlot) (i n : ℕ) (s : RecvSlot)
    → get_elem? xs i ≡ some s
    → take (suc n) (drop i xs) ≡ s ∷ take n (drop (i + 1) xs)
take-drop [] i n s e = cc
take-drop (x ∷ xs) zero n s e = ap (λ y. y ∷ take n xs) (some_inj e)
take-drop (x ∷ xs) (suc i) n s e = rw add-one (rw add-one at (take-drop xs i n s e))

iter_from-datagrams :
    (b : RecvBatchRaw) (n i : ℕ)
    → IsValid b
    → i + n ≤ length b.slots
    → iter_from b n i ≡ val (map datagram (take n (drop i b.slots)))
unfolding iter_from
iter_from-datagrams b zero i v h = refl
iter_from-datagrams b (suc n) i v h =
    let (s, e) = get_elem?-some b.slots i (omega arith) in
    rw (
      payload-some b i s e (All-get Fits b.slots i v.fit e),
      addr-some b i s e,
      iter_from-datagrams b n (i + 1) v (omega arith),
      take-drop b.slots i n s e,
    )

-- On a valid batch `iter` does not panic, and yields the bytes received with their source for the
-- first `len` slots, in their order.
pub iter-datagrams :
    (b : RecvBatchRaw) → IsValid b → iter b ≡ val (map datagram (take b.len b.slots))
unfolding iter
iter-datagrams b v = iter_from-datagrams b b.len 0 v (omega (arith, v.within))

-- `set_recv_len` at a slot of a valid batch, with no more bytes than its buffer holds, keeps the
-- batch valid; the payload is then the buffer's first `n` bytes, `n` taken modulo 2 ^ 16.
pub set_recv_len-payload :
    (b : RecvBatchRaw) (i n : ℕ) (s : RecvSlot)
    → IsValid b
    → get_elem? b.slots i ≡ some s
    → n ≤ length s.buf
    → (b' : RecvBatchRaw) × (set_recv_len b i n ≡ val b')
      × (payload b' i ≡ val (take (n % 65536) s.buf))
      × (addr b' i ≡ val s.addr)
      × IsValid b'
      × (b'.len ≡ b.len)
unfolding set_recv_len
set_recv_len-payload b i n s v e h =
    let s' : RecvSlot = record s { recv_len = n % 65536 } in
    let b' : RecvBatchRaw = record b { slots = set b.slots i s' } in
    let fits : Fits s' = omega arith in
    let at_i : get_elem? b'.slots i ≡ some s' =
      get_elem?-set_self b.slots i s' (lt_of_get_elem? b.slots i s e) in
    (
      b',
      slot_mut-some b i (λ t. record t { recv_len = n % 65536 }) s e,
      payload-some b' i s' at_i fits,
      addr-some b' i s' at_i,
      record {
        within = omega (arith, v.within, length-set b.slots i s');
        fit = All-set Fits b.slots i s' v.fit fits;
      },
      refl,
    )

-- What an index of a batch reads.
pub record Reads (b : RecvBatchRaw) (i : ℕ) (bytes : List ℕ) (src : SocketAddr)
    (ts : Option Timestamp) (dst : Option SocketAddr) : Type 0 where
  pub reads_payload : payload b i ≡ val bytes
  pub reads_addr : addr b i ≡ val src
  pub reads_timestamp : timestamp b i ≡ val ts
  pub reads_dst_addr : dst_addr b i ≡ val dst

pub Reads-some :
    (b : RecvBatchRaw) (i : ℕ) (s : RecvSlot)
    → get_elem? b.slots i ≡ some s
    → Fits s
    → Reads b i (take s.recv_len s.buf) s.addr s.timestamp s.dst_addr
unfolding timestamp dst_addr
Reads-some b i s e h = record {
  reads_payload = payload-some b i s e h;
  reads_addr = addr-some b i s e;
  reads_timestamp = rw e;
  reads_dst_addr = rw e;
}

same_bufs :
    (xs : List RecvSlot)
    → map (λ (t : RecvSlot). t.buf) (map reset_slot xs) ≡ map (λ (t : RecvSlot). t.buf) xs
same_bufs [] = refl
same_bufs (x ∷ xs) = ap (λ l. x.buf ∷ l) (same_bufs xs)

-- After `clear`, whatever the batch held, every slot reads no bytes, no timestamp and no
-- destination address, and its old source address; the length is zero, the number of slots and
-- their buffers are what they were, and the batch is valid.
pub clear-Reads :
    (b : RecvBatchRaw) (i : ℕ) (s : RecvSlot)
    → get_elem? b.slots i ≡ some s
    → Reads (clear b) i [] s.addr none none
      × ((clear b).len ≡ 0)
      × (map (λ (t : RecvSlot). t.buf) (clear b).slots ≡ map (λ (t : RecvSlot). t.buf) b.slots)
      × IsValid (clear b)
unfolding clear
clear-Reads b i s e = (
  Reads-some (clear b) i (reset_slot s) (get_elem?-map reset_slot b.slots i e) (omega arith),
  refl,
  same_bufs b.slots,
  clear-IsValid b,
)

-- A new batch is valid; its slots below `n` read no bytes, the unspecified address and no
-- metadata, and at `n` or above every read panics.
pub with_capacity-Reads :
    (n size i : ℕ)
    → IsValid (with_capacity n size)
      × (i < n → Reads (with_capacity n size) i [] unspecified none none)
      × (n ≤ i → payload (with_capacity n size) i ≡ panic)
unfolding with_capacity payload
with_capacity-Reads n size i = (
  with_capacity-IsValid n size,
  λ h.
      Reads-some (with_capacity n size) i (fresh_slot size)
        (get_elem?-replicate n (fresh_slot size) i h) (omega arith),
  λ h. rw (
      get_elem?-none (replicate n (fresh_slot size)) i
        (omega (arith, length-replicate n (fresh_slot size)))),
)
