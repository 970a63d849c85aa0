-- ===== src/Socket/Retry.antt =====
-- src/socket.rs: the retries of `send_batch` end when the platform stops blocking, and what they
-- leave in the counters.
use mathlib.Core.Option
use binger_udp.Base.{
  ℕ, zero, suc, ◌+◌, ◌%◌, ◌^◌, ◌<◌, ◌≡◌, refl, ◌∙◌, ap, true, false, some, arith, Run, val,
}
use binger_udp.Error.{IoError, IoResult, ok, err, is_would_block}
use binger_udp.Batch.Send.{SendBatchRaw}
use binger_udp.Metrics.{
  BingerMetrics, inc_packets_sent, inc_batches_sent, inc_send_syscalls, inc_send_errors,
  inc_send_would_block,
}
use binger_udp.Socket.{
  BingerUdp, Env, after_platform_send, blocked_send, on_send, send_batch, count_sent,
  count_send_error,
}

-- A result with which `send_batch` does not try again.
abbrev pub Settled : IoResult ℕ → Type 0
Settled (ok n) = Unit {0}
Settled (err e) = is_would_block e ≡ false

-- The counters after `n` blocked attempts and a success with `sent` datagrams.
pub record Counted (m : BingerMetrics) (n sent : ℕ) (m' : BingerMetrics) : Type 0 where
  pub would_block : m'.send_would_block ≡ (m.send_would_block + n) % 2 ^ 64
  pub errors : m'.send_errors ≡ (m.send_errors + n) % 2 ^ 64
  pub packets : m'.packets_sent ≡ (m.packets_sent + sent) % 2 ^ 64
  pub batches : m'.batches_sent ≡ (m.batches_sent + 1) % 2 ^ 64
  pub syscalls : m'.send_syscalls ≡ (m.send_syscalls + 1) % 2 ^ 64

-- The counters of sends lie below 2 ^ 64, as an `AtomicU64` does.
pub record Below (m : BingerMetrics) : Type 0 where
  pub would_block : m.send_would_block < 2 ^ 64
  pub errors : m.send_errors < 2 ^ 64

Counted-ok : (m : BingerMetrics) (sent : ℕ) → Below m → Counted m 0 sent (count_sent sent m)
unfolding count_sent inc_packets_sent inc_batches_sent inc_send_syscalls
Counted-ok m sent h = omega (arith, h.would_block, h.errors)

count_blocked :
    (m : BingerMetrics) (e : IoError)
    → is_would_block e ≡ true
    → count_send_error e m ≡ inc_send_would_block (inc_send_errors m)
unfolding count_send_error
count_blocked m e h = rw (h, count_send_error)

Counted-more :
    (m m' : BingerMetrics) (n sent : ℕ)
    → Counted (inc_send_would_block (inc_send_errors m)) n sent m'
    → Counted m (suc n) sent m'
unfolding inc_send_would_block inc_send_errors
Counted-more m m' n sent c =
    omega (arith, c.would_block, c.errors, c.packets, c.batches, c.syscalls)

blocked-Below : (m : BingerMetrics) → Below (inc_send_would_block (inc_send_errors m))
unfolding inc_send_would_block inc_send_errors
blocked-Below m = omega arith

module _ (env : Env) (b : SendBatchRaw) where
  open env use {World}

  -- From a socket and a world the platform blocks `n` times, each time followed by a successful
  -- wait, and then answers `r`; the socket and the world are then `t` and `u`.
  pub data Ready (r : IoResult ℕ) (t : BingerUdp) (u : World) : ℕ → BingerUdp → World → Type 0 where
    settles :
        {s : BingerUdp} {w : World}
        → Settled r
        → env.platform_send s.fd b w ≡ val (r, u)
        → t ≡ after_platform_send s r
        → Ready r t u zero s w
    waits :
        {n : ℕ} {s : BingerUdp} {w v v' : World} {e : IoError}
        → is_would_block e ≡ true
        → env.platform_send s.fd b w ≡ val (err e, v)
        → env.wait_writable v ≡ (ok tt, v')
        → Ready r t u n (blocked_send env (after_platform_send s (err e)) v) v'
        → Ready r t u (suc n) s w

  on_send-Settled :
      (r : IoResult ℕ) (s : BingerUdp) (w : World)
      (next : BingerUdp → World → Run (IoResult ℕ × BingerUdp × World))
      → Settled r
      → on_send env r s w next ≡ val (r, s, w)
  on_send-Settled (ok n) s w next h = refl
  on_send-Settled (err e) s w next h = rw h

  -- `send_batch` returns the answer of the first attempt that does not block, with any fuel above
  -- the number of those that block.
  pub send_batch-Ready :
      {r : IoResult ℕ} {t : BingerUdp} {u : World} (fuel : ℕ) {n : ℕ} {s : BingerUdp} {w : World}
      → Ready r t u n s w
      → n < fuel
      → send_batch env fuel s b w ≡ val (r, t, u)
  unfolding send_batch
  send_batch-Ready zero ready h = elim h [ ]
  send_batch-Ready {r} {t} {u} (suc fuel) (settles {s} settled sent same) h =
      rw (sent, on_send-Settled r (after_platform_send s r) u _ settled, same)
  send_batch-Ready (suc fuel) (waits {n} {v} {v'} {e} blocks sent waited rest) h =
      rw (sent, blocks, waited, send_batch-Ready fuel rest (omega arith))

  -- With metrics on, a `send_batch` that succeeds after `n` blocked attempts has added `n` to the
  -- would-block events and to the errors, one to the batches and to the system calls, and the
  -- number of datagrams to the packets, each modulo 2 ^ 64.
  Ready-Counted :
      {k : ℕ} {t : BingerUdp} {u : World} (m : BingerMetrics) {n : ℕ} {s : BingerUdp} {w : World}
      → Ready (ok k) t u n s w
      → s.metrics ≡ some m
      → Below m
      → (m' : BingerMetrics) × (t.metrics ≡ some m') × Counted m n k m'
  unfolding after_platform_send
  Ready-Counted {k} m (settles {s} settled sent same) on small = (
    count_sent k m,
    ap (λ (x : BingerUdp). x.metrics) same ∙ ap (Option.map (count_sent k)) on,
    Counted-ok m k small,
  )
  Ready-Counted m (waits {n} {s} {v} {v'} {e} blocks sent waited rest) on small =
      let (m', after, counted) =
        Ready-Counted (inc_send_would_block (inc_send_errors m)) rest
          (ap (Option.map (count_send_error e)) on ∙ ap some (count_blocked m e blocks))
          (blocked-Below m) in
      (m', after, Counted-more m m' n _ counted)
