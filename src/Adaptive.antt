-- ===== src/Adaptive.antt =====
-- src/socket.rs: `AdaptiveState`, which follows the rate of would-block events with a target size.
-- Times are nanoseconds of the monotonic clock. Counters wrap as in a release build.
pub mod Rate
pub mod Bounds
use Prim.Native.Nat.{min, max}
use binger_udp.Base.{
  ℕ, zero, suc, ◌+◌, ◌-◌, ◌*◌, ◌/◌, ◌%◌, ◌^◌, Bool, ltb, ◌==◌, ◌&&◌, if◌then◌else◌, List, [], ◌∷◌,
}

pub record AdaptiveState : Type 0 where
  pub target_size : ℕ
  pub would_block_count : ℕ
  pub total_send_count : ℕ
  pub last_adjustment : ℕ

abbrev pub min_batch : ℕ
min_batch = 1

abbrev pub max_batch : ℕ
max_batch = 1024

-- 100 ms.
abbrev pub adjustment_interval : ℕ
adjustment_interval = 100_000_000

abbrev pub u64_mod : ℕ
u64_mod = 2 ^ 64

unfoldable pub new : ℕ → ℕ → AdaptiveState
new now initial = record {
  target_size = min (max initial min_batch) max_batch;
  would_block_count = 0;
  total_send_count = 0;
  last_adjustment = now;
}

unfoldable pub record_would_block : AdaptiveState → AdaptiveState
record_would_block s = record s {
  would_block_count = (s.would_block_count + 1) % u64_mod;
  total_send_count = (s.total_send_count + 1) % u64_mod;
}

unfoldable pub record_event : AdaptiveState → AdaptiveState
record_event s = record s { total_send_count = (s.total_send_count + 1) % u64_mod }

-- `a / b` rounded to the nearest number, to the even one of two.
unfoldable pub round_div : ℕ → ℕ → ℕ
round_div a b =
    let q = a / b in
    let r = a % b in if ltb (2 * r) b then q else if ltb b (2 * r) then q + 1 else q + q % 2

-- The distance of the `f64` values around `n`: 53 bits are kept.
unfoldable pub ulp : ℕ → ℕ → ℕ → ℕ
ulp zero u n = u
ulp (suc fuel) u n = let next = ulp fuel (2 * u) n in if ltb n (2 ^ 53 * u) then u else next

-- `n as f64` for a `u64`, whose ulp is at most 2 ^ 11.
unfoldable pub as_f64 : ℕ → ℕ
unfolding ulp round_div
as_f64 n = let u = ulp 11 1 n in round_div n u * u

-- The `f64` quotient in units of 2 ^ -54, the ulp of the values from 1/4 to 1/2, against 0.3, which
-- is 5404319552844595 such units. Quotients of other sizes lie on the same side after rounding.
unfoldable pub wb_rate_above_30 : ℕ → ℕ → Bool
unfolding round_div as_f64
wb_rate_above_30 wb total = ltb 5404319552844595 (round_div (as_f64 wb * 2 ^ 54) (as_f64 total))

-- The same against 0.1: 7205759403792794 units of 2 ^ -56.
unfoldable pub wb_rate_below_10 : ℕ → ℕ → Bool
unfolding round_div as_f64
wb_rate_below_10 wb total = ltb (round_div (as_f64 wb * 2 ^ 56) (as_f64 total)) 7205759403792794

-- The size that an adjustment chooses.
unfoldable pub adjusted : AdaptiveState → ℕ
adjusted s =
    if wb_rate_above_30 s.would_block_count s.total_send_count
    then max (s.target_size / 2) min_batch
    else if wb_rate_below_10 s.would_block_count s.total_send_count && ltb s.target_size max_batch
    then min (s.target_size * 3 / 2) max_batch
    else s.target_size

-- `now` is read for `elapsed`, which saturates at zero, and `later` for the new adjustment time.
unfoldable pub maybe_adjust : ℕ → ℕ → AdaptiveState → AdaptiveState
unfolding adjusted
maybe_adjust now later s =
    if ltb (now - s.last_adjustment) adjustment_interval
    then s
    else if s.total_send_count == 0
    then s
    else record {
      target_size = adjusted s;
      would_block_count = 0;
      total_send_count = 0;
      last_adjustment = later;
    }

unfoldable pub recommended_size : AdaptiveState → ℕ
recommended_size s = s.target_size

-- The calls that the socket makes on the state, in any order.
pub data Event : Type 0 where
  would_block event : Event
  adjust : (now later : ℕ) → Event

unfoldable pub step : AdaptiveState → Event → AdaptiveState
unfolding record_would_block record_event maybe_adjust
step s Event.would_block = record_would_block s
step s Event.event = record_event s
step s (Event.adjust now later) = maybe_adjust now later s

unfoldable pub run : AdaptiveState → List Event → AdaptiveState
run s [] = s
run s (e ∷ es) = run (step s e) es
