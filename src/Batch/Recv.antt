-- ===== src/Batch/Recv.antt =====
-- src/batch.rs: `Timestamp`, `RecvSlot`, `RecvBatchRaw` and the typed `RecvBatch<N>`, with the
-- fields of the features `timestamping` and `pktinfo`. A batch of `n` slots owns their buffers.
pub mod Slots
pub mod Client
use binger_udp.Base.{
  ℕ, zero, suc, ◌+◌, ◌%◌, ◌^◌, ◌≤◌, ◌<◌, Bool, Option, none, some, List, [], ◌∷◌, map, take, set,
  replicate, length, get_elem?, leb, ◌==◌, if◌then◌else◌, Run, ◌>>=◌, val, panic, or_panic,
}
use binger_udp.Net.{SocketAddr, unspecified}

-- The `i64` fields by their bit patterns.
pub record Timestamp : Type 0 where
  pub tv_sec : ℕ
  pub tv_nsec : ℕ

pub record RecvSlot : Type 0 where
  pub buf : List ℕ
  pub addr : SocketAddr
  pub recv_len : ℕ
  pub timestamp : Option Timestamp
  pub dst_addr : Option SocketAddr

pub record RecvBatchRaw : Type 0 where
  pub slots : List RecvSlot
  pub len : ℕ

abbrev pub fresh_slot : ℕ → RecvSlot
fresh_slot buf_size = record {
  buf = replicate buf_size 0;
  addr = unspecified;
  recv_len = 0;
  timestamp = none;
  dst_addr = none;
}

unfoldable pub with_capacity : ℕ → ℕ → RecvBatchRaw
with_capacity capacity buf_size = record {
  slots = replicate capacity (fresh_slot buf_size);
  len = 0;
}

unfoldable pub capacity : RecvBatchRaw → ℕ
capacity b = length b.slots

unfoldable pub len : RecvBatchRaw → ℕ
len b = b.len

unfoldable pub is_empty : RecvBatchRaw → Bool
is_empty b = b.len == 0

unfoldable pub set_len : RecvBatchRaw → ℕ → RecvBatchRaw
set_len b n = record b { len = n }

-- `&mut self.slots[idx]`, written through by `f`.
unfoldable pub slot_mut : RecvBatchRaw → ℕ → (RecvSlot → RecvSlot) → Run RecvBatchRaw
slot_mut b idx f = do
  s ← or_panic (get_elem? b.slots idx)
  val (record b { slots = set b.slots idx (f s) })

-- `n as u16` keeps the low sixteen bits.
unfoldable pub set_recv_len : RecvBatchRaw → ℕ → ℕ → Run RecvBatchRaw
unfolding slot_mut
set_recv_len b idx n = slot_mut b idx (λ s. record s { recv_len = n % 65536 })

-- The two references that `buffer_mut` lends are read as a pair.
unfoldable pub buffer_mut : RecvBatchRaw → ℕ → Run (List ℕ × SocketAddr)
buffer_mut b idx = do s ← or_panic (get_elem? b.slots idx); val (s.buf, s.addr)

-- A write through the buffer that `buffer_mut` lends.
unfoldable pub write_buf : RecvBatchRaw → ℕ → List ℕ → Run RecvBatchRaw
unfolding slot_mut
write_buf b idx bytes = slot_mut b idx (λ s. record s { buf = bytes })

-- A write through the address that `buffer_mut` lends.
unfoldable pub write_addr : RecvBatchRaw → ℕ → SocketAddr → Run RecvBatchRaw
unfolding slot_mut
write_addr b idx a = slot_mut b idx (λ s. record s { addr = a })

-- `&buf[..n]` panics where the buffer is shorter.
abbrev pub slice_to : List ℕ → ℕ → Run (List ℕ)
slice_to buf n = if leb n (length buf) then val (take n buf) else panic

unfoldable pub payload : RecvBatchRaw → ℕ → Run (List ℕ)
payload b idx = do s ← or_panic (get_elem? b.slots idx); slice_to s.buf s.recv_len

unfoldable pub addr : RecvBatchRaw → ℕ → Run SocketAddr
addr b idx = do s ← or_panic (get_elem? b.slots idx); val s.addr

abbrev pub reset_slot : RecvSlot → RecvSlot
reset_slot s = record s { recv_len = 0; timestamp = none; dst_addr = none }

unfoldable pub clear : RecvBatchRaw → RecvBatchRaw
clear b = record { slots = map reset_slot b.slots; len = 0 }

unfoldable pub timestamp : RecvBatchRaw → ℕ → Run (Option Timestamp)
timestamp b idx = do s ← or_panic (get_elem? b.slots idx); val s.timestamp

unfoldable pub set_timestamp : RecvBatchRaw → ℕ → Option Timestamp → Run RecvBatchRaw
unfolding slot_mut
set_timestamp b idx ts = slot_mut b idx (λ s. record s { timestamp = ts })

unfoldable pub dst_addr : RecvBatchRaw → ℕ → Run (Option SocketAddr)
dst_addr b idx = do s ← or_panic (get_elem? b.slots idx); val s.dst_addr

unfoldable pub set_dst_addr : RecvBatchRaw → ℕ → Option SocketAddr → Run RecvBatchRaw
unfolding slot_mut
set_dst_addr b idx a = slot_mut b idx (λ s. record s { dst_addr = a })

-- `RecvBatch::iter`: the items of the indices `i`, `i + 1`, … `i + n - 1`.
unfoldable pub iter_from : RecvBatchRaw → ℕ → ℕ → Run (List (List ℕ × SocketAddr))
unfolding payload addr
iter_from b zero i = val []
iter_from b (suc n) i =
    let rest = iter_from b n (i + 1) in
    payload b i >>= λ d. addr b i >>= λ a. rest >>= λ xs. val ((d, a) ∷ xs)

unfoldable pub iter : RecvBatchRaw → Run (List (List ℕ × SocketAddr))
unfolding iter_from
iter b = iter_from b b.len 0

-- What a slot says of itself: its bytes and where they came from.
abbrev pub datagram : RecvSlot → List ℕ × SocketAddr
datagram s = (take s.recv_len s.buf, s.addr)

-- A slot never claims more bytes than its buffer holds.
abbrev pub Fits : RecvSlot → Type 0
Fits s = s.recv_len ≤ length s.buf

abbrev pub All {ℓ} : {A : Type ℓ} → (A → Type 0) → List A → Type 0
All P [] = Unit {0}
All P (x ∷ xs) = P x × All P xs

pub record IsValid (b : RecvBatchRaw) : Type 0 where
  pub within : b.len ≤ length b.slots
  pub fit : All Fits b.slots
