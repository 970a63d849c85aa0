-- ===== src/Socket/Arrival.antt =====
-- src/socket.rs: the retries of `recv_batch` end when datagrams arrive.
use binger_udp.Base.{ℕ, zero, suc, ◌<◌, ◌≡◌, refl, true, false, arith, Run, val}
use binger_udp.Error.{IoResult, ok, err, is_would_block}
use binger_udp.Batch.Recv.{RecvBatchRaw}
use binger_udp.Socket.{
  BingerUdp, Env, after_platform_recv, blocked_recv, on_recv, wait_and_retry, recv_batch,
}

-- A result after which `recv_batch` waits and tries again: no datagram, or a would-block error.
abbrev pub IsIdle : IoResult ℕ → Type 0
IsIdle (ok zero) = Unit {0}
IsIdle (ok (suc n)) = ⊥
IsIdle (err e) = is_would_block e ≡ true

-- A result with which it returns.
abbrev pub IsFinal : IoResult ℕ → Type 0
IsFinal (ok zero) = ⊥
IsFinal (ok (suc n)) = Unit {0}
IsFinal (err e) = is_would_block e ≡ false

module _ (env : Env) where
  open env use {World}

  -- The platform has nothing `n` times, each time followed by a successful wait, and then answers
  -- `r`; the batch, the socket and the world are then `b'`, `t` and `u`.
  pub data Arrives (r : IoResult ℕ) (b' : RecvBatchRaw) (t : BingerUdp) (u : World)
      : ℕ → BingerUdp → RecvBatchRaw → World → Type 0 where
    arrives :
        {s : BingerUdp} {b : RecvBatchRaw} {w : World}
        → IsFinal r
        → env.platform_recv s.fd b w ≡ val (r, b', u)
        → t ≡ after_platform_recv s r
        → Arrives r b' t u zero s b w
    idles :
        {n : ℕ} {s : BingerUdp} {b b₁ : RecvBatchRaw} {w v v' : World} {r₁ : IoResult ℕ}
        → IsIdle r₁
        → env.platform_recv s.fd b w ≡ val (r₁, b₁, v)
        → env.wait_readable v ≡ (ok tt, v')
        → Arrives r b' t u n (blocked_recv env (after_platform_recv s r₁) v) b₁ v'
        → Arrives r b' t u (suc n) s b w

  on_recv-IsFinal :
      (r : IoResult ℕ) (b : RecvBatchRaw) (s : BingerUdp) (w : World)
      (next : RecvBatchRaw
        → BingerUdp
        → World
        → Run (IoResult ℕ × RecvBatchRaw × BingerUdp × World))
      → IsFinal r
      → on_recv env r b s w next ≡ val (r, b, s, w)
  on_recv-IsFinal (ok zero) b s w next h = absurd h
  on_recv-IsFinal (ok (suc n)) b s w next h = refl
  on_recv-IsFinal (err e) b s w next h = rw h refl

  on_recv-IsIdle :
      (r : IoResult ℕ) (b : RecvBatchRaw) (s : BingerUdp) (w : World)
      (next : RecvBatchRaw
        → BingerUdp
        → World
        → Run (IoResult ℕ × RecvBatchRaw × BingerUdp × World))
      → IsIdle r
      → on_recv env r b s w next ≡ wait_and_retry env b s w next
  on_recv-IsIdle (ok zero) b s w next h = refl
  on_recv-IsIdle (ok (suc n)) b s w next h = absurd h
  on_recv-IsIdle (err e) b s w next h = rw h refl

  -- `recv_batch` returns the answer of the first attempt that is neither a would-block error nor a
  -- success with no datagram, with any fuel above the number of attempts before it.
  pub recv_batch-Arrives :
      {r : IoResult ℕ} {b' : RecvBatchRaw} {t : BingerUdp} {u : World} (fuel : ℕ) {n : ℕ}
      {s : BingerUdp} {b : RecvBatchRaw} {w : World}
      → Arrives r b' t u n s b w
      → n < fuel
      → recv_batch env fuel s b w ≡ val (r, b', t, u)
  unfolding recv_batch
  recv_batch-Arrives zero arrival h = elim h [ ]
  recv_batch-Arrives {r} {b'} {t} {u} (suc fuel) (arrives {s} final got same) h =
      rw (got, on_recv-IsFinal r b' (after_platform_recv s r) u _ final, same)
  recv_batch-Arrives (suc fuel) (idles {n} {s} {b} {b₁} {w} {v} {v'} {r₁} idle got waited rest) h =
      rw (
        got,
        on_recv-IsIdle r₁ b₁ (after_platform_recv s r₁) v _ idle,
        waited,
        recv_batch-Arrives fuel rest (omega arith),
      )
