-- ===== src/Batch/Typed.antt =====
-- src/batch.rs: `RecvBatch<N>`, which hands its calls on to its raw batch, and
-- `Timestamp::as_duration`.
use binger_udp.Base.{
  ℕ, ◌+◌, ◌*◌, ◌/◌, ◌%◌, ◌^◌, ◌≤◌, ◌<◌, ◌≡◌, refl, sym, ◌∙◌, ◌⊎◌, inl, inr, Bool, true, Option,
  List, ltb, ◌==◌, if◌then◌else◌, Bool-cases, arith, Run, val, panic, length-map, length-replicate,
}
use binger_udp.Net.{SocketAddr}
use binger_udp.Batch.Recv.{RecvBatchRaw, Timestamp, fresh_slot, reset_slot}
use binger_udp.Batch.Recv

pub record RecvBatch (n : ℕ) : Type 0 where
  pub raw : RecvBatchRaw

module _ (n : ℕ) where
  unfoldable pub new : ℕ → RecvBatch n
  new buf_size = record { raw = Recv.with_capacity n buf_size }

  unfoldable pub len : RecvBatch n → ℕ
  len b = Recv.len b.raw

  unfoldable pub is_empty : RecvBatch n → Bool
  unfolding len
  is_empty b = len b == 0

  unfoldable pub capacity : RecvBatch n → ℕ
  capacity b = n

  unfoldable pub payload : RecvBatch n → ℕ → Run (List ℕ)
  payload b idx = Recv.payload b.raw idx

  unfoldable pub addr : RecvBatch n → ℕ → Run SocketAddr
  addr b idx = Recv.addr b.raw idx

  unfoldable pub clear : RecvBatch n → RecvBatch n
  clear b = record { raw = Recv.clear b.raw }

  unfoldable pub timestamp : RecvBatch n → ℕ → Run (Option Timestamp)
  timestamp b idx = Recv.timestamp b.raw idx

  unfoldable pub dst_addr : RecvBatch n → ℕ → Run (Option SocketAddr)
  dst_addr b idx = Recv.dst_addr b.raw idx

-- `std::time::Duration`
pub record Duration : Type 0 where
  pub secs : ℕ
  pub nanos : ℕ

-- `Duration::new` carries whole seconds over, and panics where they overflow.
abbrev pub duration_new : ℕ → ℕ → Run Duration
duration_new secs nanos =
    if ltb nanos 1000000000
    then val (record { secs = secs; nanos = nanos })
    else if ltb (secs + nanos / 1000000000) (2 ^ 64)
    then val (record { secs = secs + nanos / 1000000000; nanos = nanos % 1000000000 })
    else panic

-- The casts keep the bit pattern of `tv_sec` and the low 32 bits of `tv_nsec`.
unfoldable pub as_duration : Timestamp → Run Duration
as_duration t = duration_new t.tv_sec (t.tv_nsec % 2 ^ 32)

abbrev pub nanoseconds : Duration → ℕ
nanoseconds d = d.secs * 1000000000 + d.nanos

duration_new_lem :
    (secs nanos : ℕ)
    → secs < 2 ^ 64
    → ((d : Duration) × (duration_new secs nanos ≡ val d)
        × (nanoseconds d ≡ secs * 1000000000 + nanos)
        × (d.secs < 2 ^ 64)
        × (d.nanos < 1000000000))
      ⊎ ((duration_new secs nanos ≡ panic) × (2 ^ 64 * 1000000000 ≤ secs * 1000000000 + nanos))
duration_new_lem secs nanos h = elim (Bool-cases (ltb nanos 1000000000)) [
  | inl small ↦ rw small (inl (record { secs = secs; nanos = nanos }, refl, refl, h, ground arith))
  | inr large ↦ elim (Bool-cases (ltb (secs + nanos / 1000000000) (2 ^ 64))) [
    | inl fits ↦
        rw (large, fits)
          (inl (
            record { secs = secs + nanos / 1000000000; nanos = nanos % 1000000000 },
            refl,
            omega arith,
            ground arith,
            omega arith,
          ))
    | inr over ↦ rw (large, over) (inr (refl, ground arith))
  ]
]

-- For every timestamp `as_duration` gives a normal duration, with less than 10^9 nanoseconds,
-- that is exactly `tv_sec` seconds, read without sign, and the low 32 bits of `tv_nsec` as
-- nanoseconds; or it panics, and then these are at least 2^64 seconds.
pub as_duration-exact :
    (t : Timestamp)
    → t.tv_sec < 2 ^ 64
    → ((d : Duration) × (as_duration t ≡ val d)
        × (nanoseconds d ≡ t.tv_sec * 1000000000 + t.tv_nsec % 2 ^ 32)
        × (d.secs < 2 ^ 64)
        × (d.nanos < 1000000000))
      ⊎ ((as_duration t ≡ panic)
          × (2 ^ 64 * 1000000000 ≤ t.tv_sec * 1000000000 + t.tv_nsec % 2 ^ 32))
unfolding as_duration
as_duration-exact t h = duration_new_lem t.tv_sec (t.tv_nsec % 2 ^ 32) h

-- A new typed batch, cleared or not, is empty, and its constant capacity is the number of slots of
-- its raw batch, which the receive calls fill.
pub new-capacity :
    (n buf_size : ℕ)
    → let b = new n buf_size in
      (is_empty n b ≡ true)
      × (capacity n b ≡ Recv.capacity b.raw)
      × (is_empty n (clear n b) ≡ true)
      × (capacity n (clear n b) ≡ Recv.capacity (clear n b).raw)
unfolding new clear is_empty len capacity Recv.capacity Recv.with_capacity Recv.clear Recv.len
new-capacity n buf_size =
    let slots = (Recv.with_capacity n buf_size).slots in
    let made = length-replicate n (fresh_slot buf_size) in
    (refl, sym made, refl, sym (length-map reset_slot slots ∙ made))
