-- ===== src/Socket/Contract/Waking.antt =====
-- src/socket.rs: `send_batch` and `recv_batch` return where wake-ups are seldom false.
use binger_udp.Base.{
  ℕ, zero, suc, ◌+◌, ◌≤◌, ◌<◌, true, ◌≡◌, refl, ap, inl, inr, Bool-cases, length, length-map, val,
  arith,
}
use binger_udp.Error.{IoError, IoResult, ok, err, is_would_block}
use binger_udp.Kernel.{Fd}
use binger_udp.Batch.Send.{SendBatchRaw}
use binger_udp.Batch.Send
use binger_udp.Batch.Recv.{RecvBatchRaw, IsValid}
use binger_udp.Socket.{
  BingerUdp, Env, Sent, Received, send_batch, recv_batch, try_recv_batch, wait_and_retry,
  blocked_recv, after_platform_recv,
}
use binger_udp.Socket.Arrival.{IsIdle}
use binger_udp.Socket.Contract.{Contract, AreShort, Kept}
use binger_udp.Socket.Contract.Receiving.{Kept-AreShort}
use binger_udp.Socket.Contract.Sending.{Blocks, not_yet, once_more, send_batch-Tries}

-- The readiness that tokio reports may be false. In each world a bounded number of false reports is
-- still to come: where a wait succeeds and the attempt after it blocks all the same, or receives
-- nothing though the batch has a slot, one of them is used up.
pub record WakesUp (env : Env) (k : ℕ) : Type 0 where
  pub false_reports : env.World → ℕ
  pub bounded : (w : env.World) → false_reports w ≤ k
  pub writable :
      (fd : Fd) (b : SendBatchRaw) (e : IoError) (w v u : env.World)
      → env.wait_writable w ≡ (ok tt, v)
      → env.platform_send fd b v ≡ val (err e, u)
      → is_would_block e ≡ true
      → false_reports u < false_reports w
  pub readable :
      (fd : Fd) (b b' : RecvBatchRaw) (r : IoResult ℕ) (w v u : env.World)
      → 0 < length b.slots
      → env.wait_readable w ≡ (ok tt, v)
      → env.platform_recv fd b v ≡ val (r, b', u)
      → IsIdle r
      → false_reports u < false_reports w

-- A batch that `recv_batch` can fill.
pub record IsFillable (b : RecvBatchRaw) : Type 0 where
  pub valid : IsValid b
  pub short : AreShort b
  pub some_slot : 0 < length b.slots

pub Kept-IsFillable : (b b' : RecvBatchRaw) → Kept b b' → IsFillable b → IsFillable b'
Kept-IsFillable b b' kept h = record {
  valid = kept.valid;
  short = Kept-AreShort b b' kept h.short;
  some_slot = omega (
    arith,
    h.some_slot,
    ap length kept.same_sizes,
    length-map {B = ℕ} (λ s. length s.buf) b'.slots,
    length-map {B = ℕ} (λ s. length s.buf) b.slots,
  );
}

module _ (env : Env) (contract : Contract env) (k : ℕ) (wakes : WakesUp env k) where
  open env use {World}

  -- After a wait, no more attempts block than there are false reports.
  Blocks-few :
      (b : SendBatchRaw) {n : ℕ} {s : BingerUdp} {w₀ w : World}
      → env.wait_writable w₀ ≡ (ok tt, w)
      → Blocks env b n s w
      → n ≤ wakes.false_reports w₀
  Blocks-few b waited not_yet = omega arith
  Blocks-few b {w₀} waited (once_more {s} {w} {v} {e} sent blocks again rest) =
      omega (arith, Blocks-few b again rest, wakes.writable s.fd b e w₀ w v waited sent blocks)

  pub send_batch-Wakes :
      (fuel : ℕ) (s : BingerUdp) (b : SendBatchRaw) (w : World)
      → Send.IsValid b
      → k + 1 < fuel
      → (z : Sent env) × (send_batch env fuel s b w ≡ val z)
  send_batch-Wakes fuel s b w valid enough = elim (send_batch-Tries env contract fuel s b w valid) [
    | inl (z, n, less, tries, counts, run) ↦ (z, run)
    | inr (blocks, run) ↦ absurd (too_many fuel blocks enough)
  ]
    where
      too_many : (n : ℕ) → Blocks env b n s w → k + 1 < n → ⊥
      too_many zero not_yet h = omega arith
      too_many (suc n) (once_more {v} sent blocks waited rest) h =
          omega (arith, Blocks-few b waited rest, wakes.bounded v, h)

  -- Where an idle attempt leaves fewer than `n` false reports, more than `n` attempts are enough.
  recv_batch-more :
      (fuel n : ℕ) (s : BingerUdp) (b : RecvBatchRaw) (w : World)
      → IsFillable b
      → n < fuel
      → ((r : IoResult ℕ) (b' : RecvBatchRaw) (v : World)
          → env.platform_recv s.fd b w ≡ val (r, b', v)
          → IsIdle r
          → wakes.false_reports v < n)
      → (z : Received env) × (recv_batch env fuel s b w ≡ val z)
  unfolding recv_batch try_recv_batch
  recv_batch-more zero n s b w h enough few = absurd (omega arith)
  recv_batch-more (suc fuel) n s b w h enough few =
      let (r, b', v, got, kept, reported) = contract.receives s.fd b w h.valid h.short in
      after r b' v got (Kept-IsFillable b b' kept h) (λ t u fillable fewer left.
        recv_batch-more fuel (wakes.false_reports v) t b' u fillable fewer left)
    where
      Again : RecvBatchRaw → World → Type 0
      Again b' v =
          (t : BingerUdp) (u : World)
          → IsFillable b'
          → wakes.false_reports v < fuel
          → ((r : IoResult ℕ) (b₂ : RecvBatchRaw) (x : World)
              → env.platform_recv t.fd b' u ≡ val (r, b₂, x)
              → IsIdle r
              → wakes.false_reports x < wakes.false_reports v)
          → (z : Received env) × (recv_batch env fuel t b' u ≡ val z)

      waited :
          (r : IoResult ℕ) (b' : RecvBatchRaw) (v : World) (p : IoResult (Unit {0}) × World)
          → env.platform_recv s.fd b w ≡ val (r, b', v)
          → IsIdle r
          → env.wait_readable v ≡ p
          → IsFillable b'
          → Again b' v
          → (z : Received env) × (wait_and_retry env b'
                (after_platform_recv s r)
                v
                (λ b'' t u. recv_batch env fuel t b'' u)
              ≡ val z)
      waited r b' v (err x, u) got idle q fillable again =
          ((err x, b', blocked_recv env (after_platform_recv s r) v, u), rw q refl)
      waited r b' v (ok _, u) got idle q fillable again =
          let t = blocked_recv env (after_platform_recv s r) v in
          let (z, run) =
            again t u fillable (omega (arith, few r b' v got idle, enough)) (λ r₂ b₂ x got₂ idle₂.
              wakes.readable t.fd b' b₂ r₂ v u x fillable.some_slot q got₂ idle₂) in
          (z, rw q run)

      after :
          (r : IoResult ℕ) (b' : RecvBatchRaw) (v : World)
          → env.platform_recv s.fd b w ≡ val (r, b', v)
          → IsFillable b'
          → Again b' v
          → (z : Received env) × (recv_batch env (suc fuel) s b w ≡ val z)
      after (ok zero) b' v got fillable again =
          let (z, run) = waited (ok 0) b' v (env.wait_readable v) got tt refl fillable again in
          (z, rw got run)
      after (ok (suc m)) b' v got fillable again =
          ((ok (suc m), b', after_platform_recv s (ok (suc m)), v), rw got refl)
      after (err e) b' v got fillable again = elim (Bool-cases (is_would_block e)) [
        | inl blocks ↦
            let (z, run) =
              waited (err e) b' v (env.wait_readable v) got blocks refl fillable again in
            (z, rw (got, blocks) run)
        | inr other ↦ ((err e, b', after_platform_recv s (err e), v), rw (got, other) refl)
      ]

  pub recv_batch-Wakes :
      (fuel : ℕ) (s : BingerUdp) (b : RecvBatchRaw) (w : World)
      → IsFillable b
      → k + 1 < fuel
      → (z : Received env) × (recv_batch env fuel s b w ≡ val z)
  recv_batch-Wakes fuel s b w h enough =
      recv_batch-more fuel (k + 1) s b w h enough
        (λ r b' v got idle. omega (arith, wakes.bounded v))
