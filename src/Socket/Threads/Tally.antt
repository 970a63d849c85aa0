-- ===== src/Socket/Threads/Tally.antt =====
-- src/metrics.rs: what the effects of threads add to each counter, modulo 2 ^ 64.
use binger_udp.Base.{
  ℕ, ◌+◌, ◌%◌, ◌^◌, ◌≡◌, refl, ap, ◌∙◌, none, some, List, [], ◌∷◌, arith, if◌then◌else◌, Bool, true,
  false,
}
use binger_udp.Metrics.{BingerMetrics}
use binger_udp.Metrics.History.{Counter, Call, apply, get, get-add, same, amount}
use binger_udp.Socket.Threads.{Effect}
use binger_udp.Socket.Threads.Serial.{ticks, left}

-- What some effects add to a counter.
unfoldable pub tally : Counter → List Effect → ℕ
tally c [] = 0
tally c (Effect.count d n ∷ es) = (if same d c then amount d n else 0) + tally c es
tally c (Effect.on_send l ∷ es) = tally c es
tally c (Effect.on_recv l ∷ es) = tally c es

unfoldable pub tally_all : Counter → List (List Effect) → ℕ
unfolding tally
tally_all c [] = 0
tally_all c (t ∷ ts) = tally c t + tally_all c ts

pub ticks-value :
    (es : List Effect) (m : BingerMetrics)
    → (n : BingerMetrics) × (ticks es (some m) ≡ some n)
      × ((c : Counter) → get c n % 2 ^ 64 ≡ (get c m + tally c es) % 2 ^ 64)
unfolding ticks tally
ticks-value [] m = (m, refl, λ c. omega arith)
ticks-value (Effect.on_send l ∷ es) m = ticks-value es m
ticks-value (Effect.on_recv l ∷ es) m = ticks-value es m
ticks-value (Effect.count d n ∷ es) m =
    let (r, same_end, h) = ticks-value es (apply m (Call.add d n)) in
    (r, same_end, λ c. h c ∙ wraps c (same d c) (get-add d c n m))
  where
    wraps :
        {x : ℕ} (c : Counter) (b : Bool)
        → x ≡ (if b then (get c m + amount d n) % 2 ^ 64 else get c m)
        → (x + tally c es) % 2 ^ 64
          ≡ (get c m + ((if b then amount d n else 0) + tally c es)) % 2 ^ 64
    wraps c true q = omega (arith, q)
    wraps c false q = omega (arith, q)

pub left-value :
    (ts : List (List Effect)) (m : BingerMetrics)
    → (n : BingerMetrics) × (left ts (some m) ≡ some n)
      × ((c : Counter) → get c n % 2 ^ 64 ≡ (get c m + tally_all c ts) % 2 ^ 64)
unfolding left tally_all
left-value [] m = (m, refl, λ c. omega arith)
left-value (t ∷ ts) m =
    let (k, through, h) = ticks-value t m in
    let (n, rest, g) = left-value ts k in
    (n, ap (left ts) through ∙ rest, λ c. omega (arith, h c, g c))

pub left-none : (ts : List (List Effect)) → left ts none ≡ none
unfolding left ticks
left-none [] = refl
left-none (t ∷ ts) = ap (left ts) (ticks-none t) ∙ left-none ts
  where
    ticks-none : (es : List Effect) → ticks es none ≡ none
    ticks-none [] = refl
    ticks-none (Effect.count d n ∷ es) = ticks-none es
    ticks-none (Effect.on_send l ∷ es) = ticks-none es
    ticks-none (Effect.on_recv l ∷ es) = ticks-none es
