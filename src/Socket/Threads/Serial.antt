-- ===== src/Socket/Threads/Serial.antt =====
-- src/socket.rs and src/metrics.rs: what threads that share a socket count does not depend on how
-- their calls interleave.
use mathlib.Core.Option
use binger_udp.Base.{
  ℕ, ◌+◌, ◌%◌, ◌^◌, ◌≡◌, refl, sym, ap, ◌∙◌, Option, none, some, List, [], ◌∷◌, map, arith,
  if◌then◌else◌, Bool, true, false,
}
use binger_udp.Metrics.{BingerMetrics}
use binger_udp.Metrics.History.{Counter, Call, apply, get, get-add, same, amount}
use binger_udp.Socket.{BingerUdp}
use binger_udp.Socket.Threads.{
  Effect, Attempt, Step, Steps, first, other, none_yet, then_steps, IsFinished, perform,
  perform_all, perform_all-program, program, run_attempts,
}

-- Counters that agree one by one are equal.
metrics_ext : (m n : BingerMetrics) → ((c : Counter) → get c m ≡ get c n) → m ≡ n
metrics_ext m n h = λ i. record {
  packets_sent = h Counter.packets_sent i;
  packets_received = h Counter.packets_received i;
  batches_sent = h Counter.batches_sent i;
  batches_received = h Counter.batches_received i;
  send_syscalls = h Counter.send_syscalls i;
  recv_syscalls = h Counter.recv_syscalls i;
  send_errors = h Counter.send_errors i;
  recv_errors = h Counter.recv_errors i;
  send_would_block = h Counter.send_would_block i;
  recv_would_block = h Counter.recv_would_block i;
}

wrapped : Bool → ℕ → ℕ → ℕ
wrapped p x n = if p then (x + n) % 2 ^ 64 else x

wrapped_comm : (p q : Bool) (x n k : ℕ) → wrapped q (wrapped p x n) k ≡ wrapped p (wrapped q x k) n
unfolding wrapped
wrapped_comm true true x n k = omega arith
wrapped_comm true false x n k = refl
wrapped_comm false q x n k = refl

get-add-wrapped :
    (d x : Counter) (n : ℕ) (m : BingerMetrics)
    → get x (apply m (Call.add d n)) ≡ wrapped (same d x) (get x m) (amount d n)
unfolding wrapped
get-add-wrapped d x n m = get-add d x n m

-- Increments commute, also where they wrap.
add_comm :
    (c d : Counter) (n k : ℕ) (m : BingerMetrics)
    → apply (apply m (Call.add c n)) (Call.add d k) ≡ apply (apply m (Call.add d k)) (Call.add c n)
add_comm c d n k m = metrics_ext _ _ same_value
  where
    same_value :
        (x : Counter)
        → get x (apply (apply m (Call.add c n)) (Call.add d k))
          ≡ get x (apply (apply m (Call.add d k)) (Call.add c n))
    same_value x =
        get-add-wrapped d x k (apply m (Call.add c n))
        ∙ ap (λ y. wrapped (same d x) y (amount d k)) (get-add-wrapped c x n m)
        ∙ wrapped_comm (same c x) (same d x) (get x m) (amount c n) (amount d k)
        ∙ ap (λ y. wrapped (same c x) y (amount c n)) (sym (get-add-wrapped d x k m))
        ∙ sym (get-add-wrapped c x n (apply m (Call.add d k)))

-- The effect on the counters alone.
abbrev pub tick : Effect → Option BingerMetrics → Option BingerMetrics
tick (Effect.count c n) m = Option.map (λ x. apply x (Call.add c n)) m
tick (Effect.on_send l) m = m
tick (Effect.on_recv l) m = m

unfoldable pub ticks : List Effect → Option BingerMetrics → Option BingerMetrics
ticks [] m = m
ticks (e ∷ es) m = ticks es (tick e m)

perform-metrics : (e : Effect) (s : BingerUdp) → (perform e s).metrics ≡ tick e s.metrics
unfolding perform
perform-metrics (Effect.count c n) s = refl
perform-metrics (Effect.on_send l) s = refl
perform-metrics (Effect.on_recv l) s = refl

perform_all-metrics :
    (es : List Effect) (s : BingerUdp) → (perform_all es s).metrics ≡ ticks es s.metrics
unfolding perform_all ticks
perform_all-metrics [] s = refl
perform_all-metrics (e ∷ es) s =
    perform_all-metrics es (perform e s) ∙ ap (ticks es) (perform-metrics e s)

tick_comm : (e f : Effect) (m : Option BingerMetrics) → tick f (tick e m) ≡ tick e (tick f m)
tick_comm (Effect.count c n) (Effect.count d k) none = refl
tick_comm (Effect.count c n) (Effect.count d k) (some m) = ap some (add_comm c d n k m)
tick_comm (Effect.on_send l) f m = refl
tick_comm (Effect.on_recv l) f m = refl
tick_comm (Effect.count c n) (Effect.on_send l) m = refl
tick_comm (Effect.count c n) (Effect.on_recv l) m = refl

ticks-tick :
    (es : List Effect) (e : Effect) (m : Option BingerMetrics)
    → ticks es (tick e m) ≡ tick e (ticks es m)
unfolding ticks
ticks-tick [] e m = refl
ticks-tick (x ∷ es) e m = ap (ticks es) (tick_comm e x m) ∙ ticks-tick es e (tick x m)

-- What is left to count: the remaining effects of every thread, one thread after another.
unfoldable pub left : List (List Effect) → Option BingerMetrics → Option BingerMetrics
left [] m = m
left (t ∷ ts) m = left ts (ticks t m)

left-tick :
    (ts : List (List Effect)) (e : Effect) (m : Option BingerMetrics)
    → left ts (tick e m) ≡ tick e (left ts m)
unfolding left
left-tick [] e m = refl
left-tick (t ∷ ts) e m = ap (left ts) (ticks-tick t e m) ∙ left-tick ts e (ticks t m)

left-ticks :
    (ts : List (List Effect)) (es : List Effect) (m : Option BingerMetrics)
    → left ts (ticks es m) ≡ ticks es (left ts m)
unfolding ticks
left-ticks ts [] m = refl
left-ticks ts (e ∷ es) m = left-ticks ts es (tick e m) ∙ ap (ticks es) (left-tick ts e m)

-- A step does not change what the counters will be in the end.
Step-left :
    {ts us : List (List Effect)} {s t : BingerUdp}
    → Step ts s us t
    → left us t.metrics ≡ left ts s.metrics
unfolding left ticks
Step-left (first {e} {es} {ts} {s}) = ap (λ m. left ts (ticks es m)) (perform-metrics e s)
Step-left (other {es} {ts} {us} {s} {t} step) =
    left-ticks us es t.metrics ∙ ap (ticks es) (Step-left step) ∙ sym (left-ticks ts es s.metrics)

pub Steps-left :
    {ts us : List (List Effect)} {s t : BingerUdp}
    → Steps ts s us t
    → left us t.metrics ≡ left ts s.metrics
Steps-left none_yet = refl
Steps-left (then_steps step steps) = Steps-left steps ∙ Step-left step

left-IsFinished :
    (ts : List (List Effect)) (m : Option BingerMetrics) → IsFinished ts → left ts m ≡ m
unfolding left ticks
left-IsFinished [] m h = refl
left-IsFinished ([] ∷ ts) m h = left-IsFinished ts m h
left-IsFinished ((e ∷ es) ∷ ts) m h = absurd h

-- The threads' calls one after another, each without interference.
unfoldable pub run_threads : List (List Attempt) → BingerUdp → BingerUdp
run_threads [] s = s
run_threads (t ∷ ts) s = run_threads ts (run_attempts t s)

run_threads-metrics :
    (ts : List (List Attempt)) (s : BingerUdp)
    → (run_threads ts s).metrics ≡ left (map program ts) s.metrics
unfolding run_threads left
run_threads-metrics [] s = refl
run_threads-metrics (t ∷ ts) s =
    run_threads-metrics ts (run_attempts t s)
    ∙ ap (λ u. left (map program ts) u.metrics) (sym (perform_all-program t s))
    ∙ ap (left (map program ts)) (perform_all-metrics (program t) s)

-- However the effects of threads that share a socket interleave, once all the calls have ended every
-- counter is what it would be had the threads made their calls one thread after another.
pub Steps-serial :
    (ts : List (List Attempt)) (us : List (List Effect)) (s t : BingerUdp)
    → Steps (map program ts) s us t
    → IsFinished us
    → t.metrics ≡ (run_threads ts s).metrics
Steps-serial ts us s t steps finished =
    sym (left-IsFinished us t.metrics finished) ∙ Steps-left steps ∙ sym (run_threads-metrics ts s)
