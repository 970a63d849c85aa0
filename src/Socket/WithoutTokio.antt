-- ===== src/Socket/WithoutTokio.antt =====
-- src/socket.rs: the build without the feature `tokio`, where `wait_writable` and `wait_readable` fail.
use binger_udp.Base.{ℕ, zero, suc, ◌≡◌, refl, false, inl, inr, Bool-cases, Run, val, arith}
use binger_udp.Error.{IoError, IoResult, ok, err, is_would_block, kind}
use binger_udp.Batch.Send.{SendBatchRaw}
use binger_udp.Batch.Send
use binger_udp.Batch.Recv.{RecvBatchRaw}
use binger_udp.Batch.Recv
use binger_udp.Socket.{
  BingerUdp, Env, Sent, Received, try_send_batch, try_recv_batch, send_batch, recv_batch, on_send,
  on_recv, blocked_send, blocked_recv, after_platform_send, after_platform_recv,
}
use binger_udp.Socket.Contract.{Contract, CountsAtMost, AreShort, Kept, Reported}
use binger_udp.Socket.Contract.Receiving.{Held}

-- `Err(io::Error::new(io::ErrorKind::Other, "tokio feature disabled"))`
unfoldable pub disabled : {W : Type 0} → W → IoResult (Unit {0}) × W
disabled w = (err IoError.other, w)

abbrev pub without_tokio : Env → Env
without_tokio env = record env { wait_writable = disabled; wait_readable = disabled }

-- A result that is no would-block error.
abbrev pub NotBlocked : IoResult ℕ → Type 0
NotBlocked (ok n) = Unit {0}
NotBlocked (err e) = is_would_block e ≡ false

module _ (env : Env) where
  open env use {World}

  on_send-Settles :
      (n : ℕ) (r : IoResult ℕ) (s : BingerUdp) (w : World)
      (next : BingerUdp → World → Run (Sent env))
      → CountsAtMost n r
      → (r' : IoResult ℕ) × (t : BingerUdp) × (v : World) × (on_send (without_tokio env) r s w next
          ≡ val (r', t, v))
        × CountsAtMost n r'
        × NotBlocked r'
  unfolding disabled is_would_block kind
  on_send-Settles n (ok m) s w next h = (ok m, s, w, refl, h, tt)
  on_send-Settles n (err e) s w next h = elim (Bool-cases (is_would_block e)) [
    | inl blocks ↦ (err IoError.other, blocked_send env s w, w, rw blocks refl, tt, refl)
    | inr other ↦ (err e, s, w, rw other refl, tt, other)
  ]

  on_recv-Settles :
      (r : IoResult ℕ) (b : RecvBatchRaw) (s : BingerUdp) (w : World)
      (next : RecvBatchRaw → BingerUdp → World → Run (Received env))
      → Reported b r
      → (r' : IoResult ℕ) × (t : BingerUdp) × (v : World) × (on_recv
            (without_tokio env)
            r
            b
            s
            w
            next
          ≡ val (r', b, t, v))
        × Held b r'
        × NotBlocked r'
  unfolding disabled is_would_block kind
  on_recv-Settles (ok zero) b s w next h =
      (err IoError.other, blocked_recv env s w, w, refl, tt, refl)
  on_recv-Settles (ok (suc n)) b s w next h =
      (ok (suc n), s, w, refl, (omega arith, h (omega arith)), tt)
  on_recv-Settles (err e) b s w next h = elim (Bool-cases (is_would_block e)) [
    | inl blocks ↦ (err IoError.other, blocked_recv env s w, w, rw blocks refl, tt, refl)
    | inr other ↦ (err e, s, w, rw other refl, tt, other)
  ]

  -- Without tokio, over any backend that keeps the contract and on valid batches, with any fuel
  -- above 0, `send_batch` and `recv_batch` return after one attempt, never with a would-block error.
  -- A success counts at most the entries of the batch, or at least one datagram, as many as the
  -- valid batch then holds over the same buffers.
  pub without_tokio-NotBlocked :
      (fuel : ℕ) (s : BingerUdp) (sb : SendBatchRaw) (rb : RecvBatchRaw) (w : World)
      → Contract env
      → Send.IsValid sb
      → Recv.IsValid rb
      → AreShort rb
      → ((r : IoResult ℕ) × (t : BingerUdp) × (v : World) × (send_batch
              (without_tokio env)
              (suc fuel)
              s
              sb
              w
            ≡ val (r, t, v))
          × CountsAtMost sb.len r
          × NotBlocked r)
        × ((r : IoResult ℕ) × (b' : RecvBatchRaw) × (t : BingerUdp) × (v : World) × (recv_batch
                (without_tokio env)
                (suc fuel)
                s
                rb
                w
              ≡ val (r, b', t, v))
            × Kept rb b'
            × Held b' r
            × NotBlocked r)
  unfolding send_batch try_send_batch recv_batch try_recv_batch
  without_tokio-NotBlocked fuel s sb rb w contract sv rv short =
      let (r, v, sent, counts) = contract.sends s.fd sb w sv in
      let (r', t, u, run, counts', settled) =
        on_send-Settles sb.len r (after_platform_send s r) v
          (λ s' w'. send_batch (without_tokio env) fuel s' sb w') counts in
      let (q, b', x, got, kept, reported) = contract.receives s.fd rb w rv short in
      let (q', t', u', run', held, settled') =
        on_recv-Settles q b' (after_platform_recv s q) x
          (λ b'' s' w'. recv_batch (without_tokio env) fuel s' b'' w') reported in
      (
        (r', t, u, rw sent run, counts', settled),
        (q', b', t', u', rw got run', kept, held, settled'),
      )
