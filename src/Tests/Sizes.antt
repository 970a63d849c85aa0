-- ===== src/Tests/Sizes.antt =====
-- Adaptive batch sizes and counters.
use binger_udp.Base.{◌-◌, ◌*◌, ◌/◌, ◌%◌, ◌^◌, ◌<◌, ◌≤◌, ◌≡◌, refl, List, [], ◌∷◌, arith, min, max}
use binger_udp.Adaptive.{
  AdaptiveState, Event, new, maybe_adjust, run, wb_rate_above_30, wb_rate_below_10,
  adjustment_interval,
}
use binger_udp.Adaptive
use binger_udp.Adaptive.Bounds.{maybe_adjust_lem}
use binger_udp.Metrics.{default}
use binger_udp.Metrics.History
use binger_udp.Metrics.History.{Call, Counter, run_history}

-- Four of ten events would have blocked.
abbrev crowded : AdaptiveState
crowded = record {
  target_size = 32;
  would_block_count = 4;
  total_send_count = 10;
  last_adjustment = 0;
}

adjust-crowded : (maybe_adjust 100_000_000 100_000_001 crowded).target_size ≡ 16
unfolding maybe_adjust Adaptive.adjusted wb_rate_above_30 Adaptive.as_f64 Adaptive.ulp
    Adaptive.round_div
adjust-crowded = refl

maybe_adjust_lem_example :
    let s' = maybe_adjust 100_000_000 100_000_001 crowded in
    (100_000_000 - 0 < adjustment_interval → s' ≡ crowded)
    × (crowded.total_send_count ≡ 0 → s' ≡ crowded)
    × (adjustment_interval ≤ 100_000_000 - 0
        → 0 < 10
        → (s'.would_block_count ≡ 0)
          × (s'.total_send_count ≡ 0)
          × (s'.last_adjustment ≡ 100_000_001)
          × (3 * 10 < 10 * 4 → s'.target_size ≡ max (32 / 2) 1)
          × (10 * 4 < 10 → s'.target_size ≡ min (32 * 3 / 2) 1024)
          × (10 ≤ 10 * 4 → 10 * 4 ≤ 3 * 10 → s'.target_size ≡ 32))
maybe_adjust_lem_example =
    maybe_adjust_lem 100_000_000 100_000_001 crowded (omega arith) (omega arith)
      (omega arith, omega arith)

abbrev events : List Event
events =
    Event.event
    ∷ Event.adjust 100_000_000 100_000_000
    ∷ Event.would_block
    ∷ Event.adjust 200_000_000 200_000_000
    ∷ []

abbrev calls : List Call
calls =
    Call.add Counter.packets_sent 3
    ∷ Call.reset_all
    ∷ Call.add Counter.packets_sent (2 ^ 64)
    ∷ Call.add Counter.send_errors 1
    ∷ Call.add Counter.packets_sent 9
    ∷ []

run_history_example :
    History.get Counter.packets_sent (History.run default calls)
    ≡ History.total Counter.packets_sent 0 calls % 2 ^ 64
run_history_example = run_history Counter.packets_sent calls
