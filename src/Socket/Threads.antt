-- ===== src/Socket/Threads.antt =====
-- src/socket.rs and src/metrics.rs: one socket shared by threads. `BingerUdp` is `Sync`: its
-- counters are atomic and its adaptive states are behind mutexes, so a call changes the shared
-- socket by a sequence of atomic effects, and the effects of different threads interleave. The
-- counters are `Relaxed`: what is said of an interleaving is about each counter by itself, or about
-- a state behind its mutex. No thread calls `reset` meanwhile.
pub mod Serial
pub mod Tally
pub mod Steady
pub mod Traces
use mathlib.Core.Option
use binger_udp.Base.{
  ℕ, ◌≡◌, refl, ap, ◌∙◌, Option, none, some, Bool, true, false, if◌then◌else◌, List, [], ◌∷◌, ◌++◌,
  Bool-cases, inl, inr,
}
use binger_udp.Error.{IoError, IoResult, ok, err, is_would_block}
use binger_udp.Adaptive.{AdaptiveState, record_event, record_would_block, maybe_adjust}
use binger_udp.Metrics.{
  BingerMetrics, inc_packets_sent, inc_packets_received, inc_batches_sent, inc_batches_received,
  inc_send_syscalls, inc_recv_syscalls, inc_send_errors, inc_recv_errors, inc_send_would_block,
  inc_recv_would_block,
}
use binger_udp.Metrics.History.{Counter, Call, apply}
use binger_udp.Socket.{
  BingerUdp, update_locked, after_platform_send, after_platform_recv, count_sent, count_received,
  count_send_error, count_recv_error,
}

-- What a thread does to an adaptive state while it holds the lock.
pub data Critical : Type 0 where
  event : Critical
  would_block : (now later : ℕ) → Critical

abbrev pub locked : Critical → AdaptiveState → AdaptiveState
locked Critical.event a = record_event a
locked (Critical.would_block now later) a = maybe_adjust now later (record_would_block a)

-- One `fetch_add`, or one critical section on the state of a direction.
pub data Effect : Type 0 where
  count : Counter → ℕ → Effect
  on_send on_recv : Critical → Effect

unfoldable pub perform : Effect → BingerUdp → BingerUdp
perform (Effect.count c n) s = record s {
  metrics = Option.map (λ m. apply m (Call.add c n)) s.metrics;
}
perform (Effect.on_send l) s = record s { adaptive_send = update_locked (locked l) s.adaptive_send }
perform (Effect.on_recv l) s = record s { adaptive_recv = update_locked (locked l) s.adaptive_recv }

unfoldable pub perform_all : List Effect → BingerUdp → BingerUdp
unfolding perform
perform_all [] s = s
perform_all (e ∷ es) s = perform_all es (perform e s)

-- The rounds of the send and receive operations: the answer of the platform, and the blocked
-- round that follows a would-block answer in `send_batch` and `recv_batch`.
pub data Attempt : Type 0 where
  sent received : IoResult ℕ → Attempt
  send_blocked recv_blocked : (now later : ℕ) → Attempt

abbrev would_block_effect : Bool → Counter → List Effect
would_block_effect true c = Effect.count c 1 ∷ []
would_block_effect false c = []

-- The effects of a round in program order.
unfoldable pub effects : Attempt → List Effect
effects (Attempt.sent (ok n)) =
    Effect.on_send Critical.event
    ∷ Effect.count Counter.packets_sent n
    ∷ Effect.count Counter.batches_sent 1
    ∷ Effect.count Counter.send_syscalls 1
    ∷ []
effects (Attempt.sent (err e)) =
    Effect.count Counter.send_errors 1
    ∷ would_block_effect (is_would_block e) Counter.send_would_block
effects (Attempt.received (ok n)) =
    Effect.on_recv Critical.event
    ∷ Effect.count Counter.packets_received n
    ∷ Effect.count Counter.batches_received 1
    ∷ Effect.count Counter.recv_syscalls 1
    ∷ []
effects (Attempt.received (err e)) =
    Effect.count Counter.recv_errors 1
    ∷ would_block_effect (is_would_block e) Counter.recv_would_block
effects (Attempt.send_blocked now later) = Effect.on_send (Critical.would_block now later) ∷ []
effects (Attempt.recv_blocked now later) = Effect.on_recv (Critical.would_block now later) ∷ []

-- The operations of one direction: send or receive.
pub data Direction : Type 0 where
  sending receiving : Direction

-- The program of a thread.
unfoldable pub program : List Attempt → List Effect
unfolding effects
program [] = []
program (a ∷ attempts) = effects a ++ program attempts

-- A round without interference.
abbrev pub attempt : Attempt → BingerUdp → BingerUdp
attempt (Attempt.sent r) s = after_platform_send s r
attempt (Attempt.received r) s = after_platform_recv s r
attempt (Attempt.send_blocked now later) s = record s {
  adaptive_send = update_locked (locked (Critical.would_block now later)) s.adaptive_send;
}
attempt (Attempt.recv_blocked now later) s = record s {
  adaptive_recv = update_locked (locked (Critical.would_block now later)) s.adaptive_recv;
}

unfoldable pub run_attempts : List Attempt → BingerUdp → BingerUdp
run_attempts [] s = s
run_attempts (a ∷ attempts) s = run_attempts attempts (attempt a s)

-- Some thread performs its next effect.
pub data Step : List (List Effect) → BingerUdp → List (List Effect) → BingerUdp → Type 0 where
  first :
      {e : Effect} {es : List Effect} {ts : List (List Effect)} {s : BingerUdp}
      → Step ((e ∷ es) ∷ ts) s (es ∷ ts) (perform e s)
  other :
      {es : List Effect} {ts us : List (List Effect)} {s t : BingerUdp}
      → Step ts s us t
      → Step (es ∷ ts) s (es ∷ us) t

pub data Steps : List (List Effect) → BingerUdp → List (List Effect) → BingerUdp → Type 0 where
  none_yet : {ts : List (List Effect)} {s : BingerUdp} → Steps ts s ts s
  then_steps :
      {ts us vs : List (List Effect)} {s t u : BingerUdp}
      → Step ts s us t
      → Steps us t vs u
      → Steps ts s vs u

-- No thread has anything left to do.
abbrev pub IsFinished : List (List Effect) → Type 0
IsFinished [] = Unit {0}
IsFinished ([] ∷ ts) = IsFinished ts
IsFinished ((e ∷ es) ∷ ts) = ⊥

pub perform_all-append :
    (xs ys : List Effect) (s : BingerUdp)
    → perform_all (xs ++ ys) s ≡ perform_all ys (perform_all xs s)
unfolding perform_all
perform_all-append [] ys s = refl
perform_all-append (x ∷ xs) ys s = perform_all-append xs ys (perform x s)

-- The counters after a failed round, by whether the error says that it would block.
send_error_lem :
    (e : IoError) (m : BingerMetrics) (t : Bool)
    → is_would_block e ≡ t
    → count_send_error e m
      ≡ (if t then inc_send_would_block (inc_send_errors m) else inc_send_errors m)
unfolding count_send_error
send_error_lem e m true q = rw (q, count_send_error) refl
send_error_lem e m false q = rw (q, count_send_error) refl

recv_error_lem :
    (e : IoError) (m : BingerMetrics) (t : Bool)
    → is_would_block e ≡ t
    → count_recv_error e m
      ≡ (if t then inc_recv_would_block (inc_recv_errors m) else inc_recv_errors m)
unfolding count_recv_error
recv_error_lem e m true q = rw (q, count_recv_error) refl
recv_error_lem e m false q = rw (q, count_recv_error) refl

-- Without interference the effects of a round do what the code does.
pub perform_all-effects : (a : Attempt) (s : BingerUdp) → perform_all (effects a) s ≡ attempt a s
unfolding perform_all effects perform after_platform_send after_platform_recv count_sent
    count_received
perform_all-effects (Attempt.sent (ok n)) s = on_metrics s.metrics
  where
    on_metrics :
        (m : Option BingerMetrics)
        → perform_all (effects (Attempt.sent (ok n))) (record s { metrics = m })
          ≡ attempt (Attempt.sent (ok n)) (record s { metrics = m })
    on_metrics none = refl
    on_metrics (some m) = refl
perform_all-effects (Attempt.sent (err e)) s = elim (Bool-cases (is_would_block e)) [
  | inl q ↦ on_metrics s.metrics true q
  | inr q ↦ on_metrics s.metrics false q
]
  where
    on_metrics :
        (m : Option BingerMetrics) (t : Bool)
        → is_would_block e ≡ t
        → perform_all (effects (Attempt.sent (err e))) (record s { metrics = m })
          ≡ attempt (Attempt.sent (err e)) (record s { metrics = m })
    on_metrics none true q = rw q refl
    on_metrics none false q = rw q refl
    on_metrics (some m) true q = rw (q, send_error_lem e m true q) refl
    on_metrics (some m) false q = rw (q, send_error_lem e m false q) refl
perform_all-effects (Attempt.received (ok n)) s = on_metrics s.metrics
  where
    on_metrics :
        (m : Option BingerMetrics)
        → perform_all (effects (Attempt.received (ok n))) (record s { metrics = m })
          ≡ attempt (Attempt.received (ok n)) (record s { metrics = m })
    on_metrics none = refl
    on_metrics (some m) = refl
perform_all-effects (Attempt.received (err e)) s = elim (Bool-cases (is_would_block e)) [
  | inl q ↦ on_metrics s.metrics true q
  | inr q ↦ on_metrics s.metrics false q
]
  where
    on_metrics :
        (m : Option BingerMetrics) (t : Bool)
        → is_would_block e ≡ t
        → perform_all (effects (Attempt.received (err e))) (record s { metrics = m })
          ≡ attempt (Attempt.received (err e)) (record s { metrics = m })
    on_metrics none true q = rw q refl
    on_metrics none false q = rw q refl
    on_metrics (some m) true q = rw (q, recv_error_lem e m true q) refl
    on_metrics (some m) false q = rw (q, recv_error_lem e m false q) refl
perform_all-effects (Attempt.send_blocked now later) s = refl
perform_all-effects (Attempt.recv_blocked now later) s = refl

pub perform_all-program :
    (attempts : List Attempt) (s : BingerUdp)
    → perform_all (program attempts) s ≡ run_attempts attempts s
unfolding perform_all program run_attempts
perform_all-program [] s = refl
perform_all-program (a ∷ attempts) s =
    perform_all-append (effects a) (program attempts) s
    ∙ ap (perform_all (program attempts)) (perform_all-effects a s)
    ∙ perform_all-program attempts (attempt a s)
