-- ===== src/Metrics/History.antt =====
-- src/metrics.rs: every counter is the sum of its increments since the last reset, modulo 2 ^ 64.
use binger_udp.Base.{
  ℕ, ◌+◌, ◌%◌, ◌^◌, ◌≡◌, refl, ◌∙◌, Bool, true, false, if◌then◌else◌, List, [], ◌∷◌, arith,
}
use binger_udp.Metrics.{
  BingerMetrics, default, reset, inc_packets_sent, inc_packets_received, inc_batches_sent,
  inc_batches_received, inc_send_syscalls, inc_recv_syscalls, inc_send_errors, inc_recv_errors,
  inc_send_would_block, inc_recv_would_block,
}

pub data Counter : Type 0 where
  packets_sent packets_received batches_sent batches_received send_syscalls : Counter
  recv_syscalls send_errors recv_errors send_would_block recv_would_block : Counter

-- The calls that change the counters.
pub data Call : Type 0 where
  add : Counter → ℕ → Call
  reset_all : Call

-- A counter other than those of packets is increased by one.
abbrev pub apply : BingerMetrics → Call → BingerMetrics
apply m (Call.add Counter.packets_sent n) = inc_packets_sent m n
apply m (Call.add Counter.packets_received n) = inc_packets_received m n
apply m (Call.add Counter.batches_sent n) = inc_batches_sent m
apply m (Call.add Counter.batches_received n) = inc_batches_received m
apply m (Call.add Counter.send_syscalls n) = inc_send_syscalls m
apply m (Call.add Counter.recv_syscalls n) = inc_recv_syscalls m
apply m (Call.add Counter.send_errors n) = inc_send_errors m
apply m (Call.add Counter.recv_errors n) = inc_recv_errors m
apply m (Call.add Counter.send_would_block n) = inc_send_would_block m
apply m (Call.add Counter.recv_would_block n) = inc_recv_would_block m
apply m Call.reset_all = reset m

unfoldable pub run : BingerMetrics → List Call → BingerMetrics
run m [] = m
run m (c ∷ cs) = run (apply m c) cs

abbrev pub get : Counter → BingerMetrics → ℕ
get Counter.packets_sent m = m.packets_sent
get Counter.packets_received m = m.packets_received
get Counter.batches_sent m = m.batches_sent
get Counter.batches_received m = m.batches_received
get Counter.send_syscalls m = m.send_syscalls
get Counter.recv_syscalls m = m.recv_syscalls
get Counter.send_errors m = m.send_errors
get Counter.recv_errors m = m.recv_errors
get Counter.send_would_block m = m.send_would_block
get Counter.recv_would_block m = m.recv_would_block

abbrev pub same : Counter → Counter → Bool
same Counter.packets_sent Counter.packets_sent = true
same Counter.packets_received Counter.packets_received = true
same Counter.batches_sent Counter.batches_sent = true
same Counter.batches_received Counter.batches_received = true
same Counter.send_syscalls Counter.send_syscalls = true
same Counter.recv_syscalls Counter.recv_syscalls = true
same Counter.send_errors Counter.send_errors = true
same Counter.recv_errors Counter.recv_errors = true
same Counter.send_would_block Counter.send_would_block = true
same Counter.recv_would_block Counter.recv_would_block = true
same _ _ = false

-- How much a call adds to the counters it is about.
abbrev pub amount : Counter → ℕ → ℕ
amount Counter.packets_sent n = n
amount Counter.packets_received n = n
amount _ n = 1

-- The sum of a counter's increments since the last reset, on top of what it was before.
unfoldable pub total : Counter → ℕ → List Call → ℕ
total c t [] = t
total c t (Call.reset_all ∷ cs) = total c 0 cs
total c t (Call.add d n ∷ cs) = total c (if same d c then t + amount d n else t) cs

get-reset : (c : Counter) (m : BingerMetrics) → get c (reset m) ≡ 0
unfolding reset
get-reset Counter.packets_sent m = refl
get-reset Counter.packets_received m = refl
get-reset Counter.batches_sent m = refl
get-reset Counter.batches_received m = refl
get-reset Counter.send_syscalls m = refl
get-reset Counter.recv_syscalls m = refl
get-reset Counter.send_errors m = refl
get-reset Counter.recv_errors m = refl
get-reset Counter.send_would_block m = refl
get-reset Counter.recv_would_block m = refl

add_packets_sent :
    (c : Counter) (n : ℕ) (m : BingerMetrics)
    → get c (apply m (Call.add Counter.packets_sent n)) ≡ (
        if same Counter.packets_sent c
        then (get c m + amount Counter.packets_sent n) % 2 ^ 64
        else get c m)
unfolding inc_packets_sent
add_packets_sent Counter.packets_sent n m = refl
add_packets_sent _ n m = refl

add_packets_received :
    (c : Counter) (n : ℕ) (m : BingerMetrics)
    → get c (apply m (Call.add Counter.packets_received n)) ≡ (
        if same Counter.packets_received c
        then (get c m + amount Counter.packets_received n) % 2 ^ 64
        else get c m)
unfolding inc_packets_received
add_packets_received Counter.packets_sent n m = refl
add_packets_received _ n m = refl

add_batches_sent :
    (c : Counter) (n : ℕ) (m : BingerMetrics)
    → get c (apply m (Call.add Counter.batches_sent n)) ≡ (
        if same Counter.batches_sent c
        then (get c m + amount Counter.batches_sent n) % 2 ^ 64
        else get c m)
unfolding inc_batches_sent
add_batches_sent Counter.packets_sent n m = refl
add_batches_sent _ n m = refl

add_batches_received :
    (c : Counter) (n : ℕ) (m : BingerMetrics)
    → get c (apply m (Call.add Counter.batches_received n)) ≡ (
        if same Counter.batches_received c
        then (get c m + amount Counter.batches_received n) % 2 ^ 64
        else get c m)
unfolding inc_batches_received
add_batches_received Counter.packets_sent n m = refl
add_batches_received _ n m = refl

add_send_syscalls :
    (c : Counter) (n : ℕ) (m : BingerMetrics)
    → get c (apply m (Call.add Counter.send_syscalls n)) ≡ (
        if same Counter.send_syscalls c
        then (get c m + amount Counter.send_syscalls n) % 2 ^ 64
        else get c m)
unfolding inc_send_syscalls
add_send_syscalls Counter.packets_sent n m = refl
add_send_syscalls _ n m = refl

add_recv_syscalls :
    (c : Counter) (n : ℕ) (m : BingerMetrics)
    → get c (apply m (Call.add Counter.recv_syscalls n)) ≡ (
        if same Counter.recv_syscalls c
        then (get c m + amount Counter.recv_syscalls n) % 2 ^ 64
        else get c m)
unfolding inc_recv_syscalls
add_recv_syscalls Counter.packets_sent n m = refl
add_recv_syscalls _ n m = refl

add_send_errors :
    (c : Counter) (n : ℕ) (m : BingerMetrics)
    → get c (apply m (Call.add Counter.send_errors n)) ≡ (
        if same Counter.send_errors c
        then (get c m + amount Counter.send_errors n) % 2 ^ 64
        else get c m)
unfolding inc_send_errors
add_send_errors Counter.packets_sent n m = refl
add_send_errors _ n m = refl

add_recv_errors :
    (c : Counter) (n : ℕ) (m : BingerMetrics)
    → get c (apply m (Call.add Counter.recv_errors n)) ≡ (
        if same Counter.recv_errors c
        then (get c m + amount Counter.recv_errors n) % 2 ^ 64
        else get c m)
unfolding inc_recv_errors
add_recv_errors Counter.packets_sent n m = refl
add_recv_errors _ n m = refl

add_send_would_block :
    (c : Counter) (n : ℕ) (m : BingerMetrics)
    → get c (apply m (Call.add Counter.send_would_block n)) ≡ (
        if same Counter.send_would_block c
        then (get c m + amount Counter.send_would_block n) % 2 ^ 64
        else get c m)
unfolding inc_send_would_block
add_send_would_block Counter.packets_sent n m = refl
add_send_would_block _ n m = refl

add_recv_would_block :
    (c : Counter) (n : ℕ) (m : BingerMetrics)
    → get c (apply m (Call.add Counter.recv_would_block n)) ≡ (
        if same Counter.recv_would_block c
        then (get c m + amount Counter.recv_would_block n) % 2 ^ 64
        else get c m)
unfolding inc_recv_would_block
add_recv_would_block Counter.packets_sent n m = refl
add_recv_would_block _ n m = refl

pub get-add :
    (d c : Counter) (n : ℕ) (m : BingerMetrics)
    → get c (apply m (Call.add d n))
      ≡ (if same d c then (get c m + amount d n) % 2 ^ 64 else get c m)
get-add Counter.packets_sent c n m = add_packets_sent c n m
get-add Counter.packets_received c n m = add_packets_received c n m
get-add Counter.batches_sent c n m = add_batches_sent c n m
get-add Counter.batches_received c n m = add_batches_received c n m
get-add Counter.send_syscalls c n m = add_send_syscalls c n m
get-add Counter.recv_syscalls c n m = add_recv_syscalls c n m
get-add Counter.send_errors c n m = add_send_errors c n m
get-add Counter.recv_errors c n m = add_recv_errors c n m
get-add Counter.send_would_block c n m = add_send_would_block c n m
get-add Counter.recv_would_block c n m = add_recv_would_block c n m

-- From counters that are sums modulo 2 ^ 64, any sequence of calls leads to counters that are.
run-total :
    (c : Counter) (cs : List Call) (m : BingerMetrics) (t : ℕ)
    → get c m ≡ t % 2 ^ 64
    → get c (run m cs) ≡ total c t cs % 2 ^ 64
unfolding run total
run-total c [] m t h = h
run-total c (Call.reset_all ∷ cs) m t h = run-total c cs (reset m) 0 (get-reset c m)
run-total c (Call.add d n ∷ cs) m t h =
    run-total c cs (apply m (Call.add d n)) (if same d c then t + amount d n else t)
      (get-add d c n m ∙ ground arith)

get-default : (c : Counter) → get c default ≡ 0
unfolding default
get-default Counter.packets_sent = refl
get-default Counter.packets_received = refl
get-default Counter.batches_sent = refl
get-default Counter.batches_received = refl
get-default Counter.send_syscalls = refl
get-default Counter.recv_syscalls = refl
get-default Counter.send_errors = refl
get-default Counter.recv_errors = refl
get-default Counter.send_would_block = refl
get-default Counter.recv_would_block = refl

-- After any sequence of increments and resets each counter is the sum of its own increments since
-- the last reset, modulo 2 ^ 64, and nothing else.
pub run_history : (c : Counter) (cs : List Call) → get c (run default cs) ≡ total c 0 cs % 2 ^ 64
run_history c cs = run-total c cs default 0 (get-default c)
