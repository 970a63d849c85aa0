-- ===== src/Batch/Send.antt =====
-- src/batch.rs: `SendSlot`, `SendBatchRaw` and the typed `SendBatch<N>`. A slot keeps where the
-- bytes of a datagram lie, not the bytes.
pub mod Refine
pub mod Entry
use binger_udp.Base.{
  ℕ, ◌+◌, ◌≤◌, Bool, Option, none, some, List, take, map, set, length, get_elem?, leb, ◌==◌,
  if◌then◌else◌, Run, ◌>>=◌, val, or_panic, Vec, vec_with_capacity, vec_push,
}
use binger_udp.Error.{BingerError, batch_full, Result, ok, err}
use binger_udp.Net.{SocketAddr, Slice, slice}

pub record SendSlot : Type 0 where
  pub data_ptr : ℕ
  pub data_len : ℕ
  pub addr : Option SocketAddr

pub record SendBatchRaw : Type 0 where
  pub slots : Vec SendSlot
  pub len : ℕ

abbrev pub Entry : Type 0
Entry = Slice × Option SocketAddr

unfoldable pub with_capacity : ℕ → SendBatchRaw
with_capacity capacity = record { slots = vec_with_capacity capacity; len = 0 }

-- `slots.push(slot)` or `slots[len] = slot`
unfoldable pub place : Vec SendSlot → ℕ → SendSlot → Vec SendSlot
place slots len slot =
    if leb (length slots.items) len
    then vec_push slots slot
    else record slots { items = set slots.items len slot }

unfoldable pub push :
    SendBatchRaw → Slice → Option SocketAddr → Result BingerError (Unit {0}) × SendBatchRaw
unfolding place
push b bytes addr = if leb b.slots.cap b.len then (err (batch_full b.slots.cap), b) else (
  ok tt,
  record {
    slots =
        place b.slots b.len (record { data_ptr = bytes.ptr; data_len = bytes.len; addr = addr });
    len = b.len + 1;
  },
)

unfoldable pub len : SendBatchRaw → ℕ
len b = b.len

unfoldable pub is_empty : SendBatchRaw → Bool
is_empty b = b.len == 0

abbrev pub view : SendSlot → Entry
view s = (slice s.data_ptr s.data_len, s.addr)

unfoldable pub entry : SendBatchRaw → ℕ → Run Entry
entry b idx = do slot ← or_panic (get_elem? b.slots.items idx); val (view slot)

unfoldable pub clear : SendBatchRaw → SendBatchRaw
clear b = record b { len = 0 }

-- `SendBatch<N>`; it dereferences to its raw batch.
pub record SendBatch (n : ℕ) : Type 0 where
  pub raw : SendBatchRaw

module _ (n : ℕ) where
  unfoldable pub new : SendBatch n
  new = record { raw = with_capacity n }

  unfoldable pub push_to :
      SendBatch n → Slice → SocketAddr → Result BingerError (Unit {0}) × SendBatch n
  push_to b bytes addr = let (r, raw) = push b.raw bytes (some addr) in (r, record { raw = raw })

  unfoldable pub push_connected : SendBatch n → Slice → Result BingerError (Unit {0}) × SendBatch n
  push_connected b bytes = let (r, raw) = push b.raw bytes none in (r, record { raw = raw })

  unfoldable pub capacity : SendBatch n → ℕ
  capacity b = n

  unfoldable pub clear_all : SendBatch n → SendBatch n
  clear_all b = record { raw = clear b.raw }

-- The datagrams that wait in the batch, oldest first.
abbrev pub entries : SendBatchRaw → List Entry
entries b = map view (take b.len b.slots.items)

-- The slots written so far cover the length and fit in what was allocated.
pub record IsValid (b : SendBatchRaw) : Type 0 where
  pub covered : b.len ≤ length b.slots.items
  pub fits : length b.slots.items ≤ b.slots.cap
