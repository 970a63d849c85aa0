-- ===== src/Adaptive/Bounds.antt =====
-- src/socket.rs: the target size over any history of calls.
use Prim.Native.Nat.{min, max}
use binger_udp.Base.{
  ℕ, ◌-◌, ◌*◌, ◌/◌, ◌≤◌, ◌<◌, ◌≡◌, refl, false, le→ltb, lt→ltb, eq_false, pos_ne_zero, List, [],
  ◌∷◌, arith, ◌^◌,
}
use binger_udp.Adaptive.{
  AdaptiveState, min_batch, max_batch, adjustment_interval, Event, new, record_would_block,
  record_event, wb_rate_above_30, wb_rate_below_10, adjusted, maybe_adjust, step, run,
}
use binger_udp.Adaptive.Rate.{wb_rate_above_30_exact, wb_rate_below_10_exact}

abbrev pub InBounds : AdaptiveState → Type 0
InBounds s = (min_batch ≤ s.target_size) × (s.target_size ≤ max_batch)

adjusted-bounds :
    (s : AdaptiveState) → InBounds s → (min_batch ≤ adjusted s) × (adjusted s ≤ max_batch)
unfolding adjusted
adjusted-bounds s h = ground arith

pub step-InBounds : (s : AdaptiveState) (e : Event) → InBounds s → InBounds (step s e)
unfolding step record_would_block record_event maybe_adjust
step-InBounds s Event.would_block h = h
step-InBounds s Event.event h = h
step-InBounds s (Event.adjust now later) h = ground (arith, adjusted-bounds s h)

run-InBounds : (es : List Event) (s : AdaptiveState) → InBounds s → InBounds (run s es)
unfolding run
run-InBounds [] s h = h
run-InBounds (e ∷ es) s h = run-InBounds es (step s e) (step-InBounds s e h)

pub new-InBounds : (now initial : ℕ) → InBounds (new now initial)
unfolding new
new-InBounds now initial = omega arith

-- Whatever the configured batch size, and whatever events and adjustments follow, the target size
-- lies from 1 to 1024.
run-new-InBounds : (now initial : ℕ) (es : List Event) → InBounds (run (new now initial) es)
run-new-InBounds now initial es = run-InBounds es (new now initial) (new-InBounds now initial)

module _ (s : AdaptiveState) where
  open s use {target_size, would_block_count, total_send_count}

  module _ (wb : would_block_count ≤ total_send_count) (small : total_send_count ≤ 2 ^ 50)
      (some_event : 0 < total_send_count) where
    adjusted-above :
        3 * total_send_count < 10 * would_block_count → adjusted s ≡ max (target_size / 2) 1
    unfolding adjusted
    adjusted-above h =
        rw ((wb_rate_above_30_exact would_block_count total_send_count some_event wb small).1 h)

    not_above :
        10 * would_block_count ≤ 3 * total_send_count
        → wb_rate_above_30 would_block_count total_send_count ≡ false
    not_above h = eq_false _ λ t. absurd (
        omega (
          arith,
          (wb_rate_above_30_exact would_block_count total_send_count some_event wb small).0 t,
        ))

    adjusted-below :
        10 * would_block_count < total_send_count
        → target_size ≤ max_batch
        → adjusted s ≡ min (target_size * 3 / 2) 1024
    unfolding adjusted
    adjusted-below h le =
        rw
          (
            not_above (omega arith),
            (wb_rate_below_10_exact would_block_count total_send_count some_event wb small).1 h,
          )
          (ground arith)

    not_below :
        total_send_count ≤ 10 * would_block_count
        → wb_rate_below_10 would_block_count total_send_count ≡ false
    not_below h = eq_false _ λ t. absurd (
        omega (
          arith,
          (wb_rate_below_10_exact would_block_count total_send_count some_event wb small).0 t,
        ))

    adjusted-between :
        total_send_count ≤ 10 * would_block_count
        → 10 * would_block_count ≤ 3 * total_send_count
        → adjusted s ≡ target_size
    unfolding adjusted
    adjusted-between lo hi = rw (not_above hi, not_below lo)

-- What an adjustment does, with the rates read exactly: nothing within the interval or without
-- events; otherwise the counters are reset, and the size is halved (at least 1) above three
-- tenths, grown by half (at most 1024) below one tenth, and kept between.
pub maybe_adjust_lem :
    (now later : ℕ) (s : AdaptiveState)
    → s.would_block_count ≤ s.total_send_count
    → s.total_send_count ≤ 2 ^ 50
    → InBounds s
    → let s' = maybe_adjust now later s in
      (now - s.last_adjustment < adjustment_interval → s' ≡ s)
      × (s.total_send_count ≡ 0 → s' ≡ s)
      × (adjustment_interval ≤ now - s.last_adjustment
          → 0 < s.total_send_count
          → (s'.would_block_count ≡ 0)
            × (s'.total_send_count ≡ 0)
            × (s'.last_adjustment ≡ later)
            × (3 * s.total_send_count < 10 * s.would_block_count
                → s'.target_size ≡ max (s.target_size / 2) 1)
            × (10 * s.would_block_count < s.total_send_count
                → s'.target_size ≡ min (s.target_size * 3 / 2) 1024)
            × (s.total_send_count ≤ 10 * s.would_block_count
                → 10 * s.would_block_count ≤ 3 * s.total_send_count
                → s'.target_size ≡ s.target_size))
unfolding maybe_adjust
maybe_adjust_lem now later s wb small h = (
  λ early. rw (lt→ltb _ _ early),
  λ none_yet. ground arith,
  λ due some_event.
      rw (le→ltb _ _ due, pos_ne_zero _ some_event)
        (
          refl,
          refl,
          refl,
          adjusted-above s wb small some_event,
          λ below. adjusted-below s wb small some_event below h.1,
          adjusted-between s wb small some_event,
        ),
)

step_stuck : (s : AdaptiveState) (e : Event) → s.target_size ≡ 1 → (step s e).target_size ≡ 1
unfolding step record_would_block record_event maybe_adjust adjusted
step_stuck s Event.would_block h = h
step_stuck s Event.event h = h
step_stuck s (Event.adjust now later) h = ground arith

-- At a size of 1 the adjustment never grows the size again, whatever events follow.
run_stuck : (es : List Event) (s : AdaptiveState) → s.target_size ≡ 1 → (run s es).target_size ≡ 1
unfolding run
run_stuck [] s h = h
run_stuck (e ∷ es) s h = run_stuck es (step s e) (step_stuck s e h)
