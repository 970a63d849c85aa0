-- ===== src/Socket/Contract/Sending.antt =====
-- src/socket.rs: the send operations over a backend that keeps its contract.
use binger_udp.Base.{
  ℕ, zero, suc, ◌<◌, true, ◌≡◌, refl, ◌⊎◌, inl, inr, Bool-cases, Run, val, out_of_fuel, arith,
}
use binger_udp.Error.{IoError, IoResult, ok, err, is_would_block}
use binger_udp.Net.{SocketAddr, Slice}
use binger_udp.Batch.Send.{SendBatchRaw, IsValid}
use binger_udp.Socket.{
  BingerUdp, Env, Sent, send_batch, try_send_batch, send_to, all_sent, blocked_send,
  after_platform_send,
}
use binger_udp.Socket.Retry.{Settled}
use binger_udp.Socket.Contract.{Contract, CountsAtMost}
use binger_udp.Backend.Single.{one_slot, single_lem, one_slot-IsValid}

module _ (env : Env) where
  open env use {World}

  -- From a socket and a world the platform blocks `n` times, each time followed by a successful
  -- wait; then it gives an answer that does not block, which is the result, or it blocks once more
  -- and the wait fails, and the error of the wait is the result.
  pub data Tries (b : SendBatchRaw) : Sent env → ℕ → BingerUdp → World → Type 0 where
    answered :
        {s : BingerUdp} {w u : World} {r : IoResult ℕ}
        → env.platform_send s.fd b w ≡ val (r, u)
        → Settled r
        → Tries b (r, after_platform_send s r, u) zero s w
    stranded :
        {s : BingerUdp} {w v u : World} {e x : IoError}
        → env.platform_send s.fd b w ≡ val (err e, v)
        → is_would_block e ≡ true
        → env.wait_writable v ≡ (err x, u)
        → Tries b (err x, blocked_send env (after_platform_send s (err e)) v, u) zero s w
    retries :
        {z : Sent env} {n : ℕ} {s : BingerUdp} {w v u : World} {e : IoError}
        → env.platform_send s.fd b w ≡ val (err e, v)
        → is_would_block e ≡ true
        → env.wait_writable v ≡ (ok tt, u)
        → Tries b z n (blocked_send env (after_platform_send s (err e)) v) u
        → Tries b z (suc n) s w

  -- The platform blocks `n` times, each time followed by a successful wait.
  pub data Blocks (b : SendBatchRaw) : ℕ → BingerUdp → World → Type 0 where
    not_yet : {s : BingerUdp} {w : World} → Blocks b zero s w
    once_more :
        {n : ℕ} {s : BingerUdp} {w v u : World} {e : IoError}
        → env.platform_send s.fd b w ≡ val (err e, v)
        → is_would_block e ≡ true
        → env.wait_writable v ≡ (ok tt, u)
        → Blocks b n (blocked_send env (after_platform_send s (err e)) v) u
        → Blocks b (suc n) s w

  -- A run of at most `fuel` attempts at a batch, whose end is shown by `shown`: it ends as `Tries`
  -- says, with a count of at most the entries, or all attempts block.
  abbrev pub EndsOrBlocks :
      ℕ → BingerUdp → SendBatchRaw → World → (Sent env → Sent env) → Run (Sent env) → Type 0
  EndsOrBlocks fuel s b w shown run =
      ((z : Sent env) × (n : ℕ) × (n < fuel)
        × Tries b z n s w
        × CountsAtMost b.len z.0
        × (run ≡ val (shown z)))
      ⊎ (Blocks b fuel s w × (run ≡ out_of_fuel))

  -- `send_to` reports the whole datagram for a success.
  abbrev pub shown_whole : Slice → Sent env → Sent env
  shown_whole buf (ok n, t, v) = (ok buf.len, t, v)
  shown_whole buf (err x, t, v) = (err x, t, v)

  module _ (contract : Contract env) where
    pub send_batch-Tries :
        (fuel : ℕ) (s : BingerUdp) (b : SendBatchRaw) (w : World)
        → IsValid b
        → EndsOrBlocks fuel s b w (λ z. z) (send_batch env fuel s b w)
    unfolding send_batch try_send_batch
    send_batch-Tries zero s b w valid = inr (not_yet, refl)
    send_batch-Tries (suc fuel) s b w valid =
        let (r, v, sent, counts) = contract.sends s.fd b w valid in
        after r v sent counts (λ t u. send_batch-Tries fuel t b u valid)
      where
        -- What a retry does.
        Again : Type 0
        Again =
            (t : BingerUdp) (u : World)
            → EndsOrBlocks fuel t b u (λ z. z) (send_batch env fuel t b u)

        waited :
            (e : IoError) (v : World) (p : IoResult (Unit {0}) × World)
            → env.platform_send s.fd b w ≡ val (err e, v)
            → is_would_block e ≡ true
            → env.wait_writable v ≡ p
            → Again
            → EndsOrBlocks (suc fuel) s b w (λ z. z) (send_batch env (suc fuel) s b w)
        waited e v (err x, u) sent blocks q again = inl (
          (err x, blocked_send env (after_platform_send s (err e)) v, u),
          0,
          omega arith,
          stranded sent blocks q,
          tt,
          rw (sent, blocks, q) refl,
        )
        waited e v (ok _, u) sent blocks q again =
            elim (again (blocked_send env (after_platform_send s (err e)) v) u) [
              | inl (z, n, enough, rest, counts, run) ↦ inl (
                z,
                suc n,
                omega (arith, enough),
                retries sent blocks q rest,
                counts,
                rw (sent, blocks, q) run,
              )
              | inr (rest, run) ↦ inr (once_more sent blocks q rest, rw (sent, blocks, q) run)
            ]

        after :
            (r : IoResult ℕ) (v : World)
            → env.platform_send s.fd b w ≡ val (r, v)
            → CountsAtMost b.len r
            → Again
            → EndsOrBlocks (suc fuel) s b w (λ z. z) (send_batch env (suc fuel) s b w)
        after (ok n) v sent counts again = inl (
          (ok n, after_platform_send s (ok n), v),
          0,
          omega arith,
          answered sent tt,
          counts,
          rw sent refl,
        )
        after (err e) v sent counts again = elim (Bool-cases (is_would_block e)) [
          | inl blocks ↦ waited e v (env.wait_writable v) sent blocks refl again
          | inr other ↦ inl (
            (err e, after_platform_send s (err e), v),
            0,
            omega arith,
            answered sent other,
            tt,
            rw (sent, other) refl,
          )
        ]

    send_to-Tries :
        (fuel : ℕ) (s : BingerUdp) (buf : Slice) (a : SocketAddr) (w : World)
        → EndsOrBlocks fuel s (one_slot buf a) w (shown_whole buf) (send_to env fuel s buf a w)
    unfolding send_to
    send_to-Tries fuel s buf a w =
        elim (send_batch-Tries fuel s (one_slot buf a) w (one_slot-IsValid buf a)) [
          | inl (z, n, enough, tries, counts, run) ↦
              inl (z, n, enough, tries, counts, rw (single_lem env buf a, run) (shown_by z))
          | inr (rest, run) ↦ inr (rest, rw (single_lem env buf a, run) refl)
        ]
      where
        shown_by :
            (z : Sent env)
            → ◌≡◌ {A = Run (Sent env)}
                (val (all_sent env buf z.0, z.1, z.2))
                (val (shown_whole buf z))
        shown_by (ok n, t, v) = refl
        shown_by (err x, t, v) = refl

    -- Over any backend that keeps the contract, with any number of attempts allowed: `send_batch` on
    -- a valid batch and `send_to` never panic. They try again after each attempt that would block and
    -- a successful wait, and after nothing else. They return the first answer that does not block,
    -- or the error of the first wait that fails; only if all attempts block and all waits succeed
    -- do they not return. A success of `send_batch` counts at most the entries of the batch, and
    -- that of `send_to` is the length of its datagram.
    pub send_operations-Tries :
        (fuel : ℕ) (s : BingerUdp) (b : SendBatchRaw) (buf : Slice) (a : SocketAddr) (w : World)
        → IsValid b
        → EndsOrBlocks fuel s b w (λ z. z) (send_batch env fuel s b w)
          × EndsOrBlocks fuel s (one_slot buf a) w (shown_whole buf) (send_to env fuel s buf a w)
    send_operations-Tries fuel s b buf a w valid =
        (send_batch-Tries fuel s b w valid, send_to-Tries fuel s buf a w)
