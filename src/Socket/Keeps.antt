-- ===== src/Socket/Keeps.antt =====
-- src/socket.rs: a rule for what every round of the send and receive loops keeps.
use binger_udp.Base.{ℕ, zero, suc, Bool, true, false, Run, ◌>>=◌, val, panic, out_of_fuel}
use binger_udp.Error.{IoError, IoResult, ok, err, is_would_block}
use binger_udp.Batch.Send.{SendBatchRaw}
use binger_udp.Batch.Recv.{RecvBatchRaw}
use binger_udp.Socket.{
  BingerUdp, Env, after_platform_send, after_platform_recv, try_send_batch, try_recv_batch,
  blocked_send, blocked_recv, await_send, await_recv, on_send, on_send_error, on_recv,
  on_recv_error, wait_and_retry, send_batch, recv_batch, Sent, Received,
}

-- A property of the socket that a run keeps, if it returns.
abbrev pub EnsuresSent :
    (BingerUdp → Type 0) → {W : Type 0} → Run (IoResult ℕ × BingerUdp × W) → Type 0
EnsuresSent P (val (r, s, w)) = P s
EnsuresSent P panic = Unit {0}
EnsuresSent P out_of_fuel = Unit {0}

abbrev pub EnsuresReceived :
    (BingerUdp → Type 0) → {W : Type 0} → Run (IoResult ℕ × RecvBatchRaw × BingerUdp × W) → Type 0
EnsuresReceived P (val (r, b, s, w)) = P s
EnsuresReceived P panic = Unit {0}
EnsuresReceived P out_of_fuel = Unit {0}

module _ (env : Env) (P : BingerUdp → Type 0) where
  open env use {World}

  module _ (attempt : (s : BingerUdp) (r : IoResult ℕ) → P s → P (after_platform_send s r))
      (blocked : (s : BingerUdp) (w : World) → P s → P (blocked_send env s w)) where
    pub try_send :
        (s : BingerUdp) (b : SendBatchRaw) (w : World)
        → P s
        → EnsuresSent P (try_send_batch env s b w)
    unfolding try_send_batch
    try_send s b w h = go (env.platform_send s.fd b w)
      where
        go :
            (run : Run (IoResult ℕ × World))
            → EnsuresSent P (run >>= λ (r, v). val (r, after_platform_send s r, v))
        go (val (r, v)) = attempt s r h
        go panic = tt
        go out_of_fuel = tt

    await :
        (p : IoResult (Unit {0}) × World) (s : BingerUdp) (next : World → Run (Sent env))
        → P s
        → ((w : World) → EnsuresSent P (next w))
        → EnsuresSent P (await_send env p s next)
    await (ok u, w) s next h k = k w
    await (err e, w) s next h k = h

    on_error :
        (c : Bool) (e : IoError) (s : BingerUdp) (w : World)
        (next : BingerUdp → World → Run (Sent env))
        → P s
        → ((s' : BingerUdp) (w' : World) → P s' → EnsuresSent P (next s' w'))
        → EnsuresSent P (on_send_error env c e s w next)
    on_error true e s w next h k =
        let s' = blocked_send env s w in
        let h' = blocked s w h in await (env.wait_writable w) s' (next s') h' (λ w'. k s' w' h')
    on_error false e s w next h k = h

    after_attempt :
        (run : Run (Sent env)) (next : BingerUdp → World → Run (Sent env))
        → EnsuresSent P run
        → ((s : BingerUdp) (w : World) → P s → EnsuresSent P (next s w))
        → EnsuresSent P (run >>= λ (r, s, w). on_send env r s w next)
    after_attempt (val (ok n, s, w)) next h k = h
    after_attempt (val (err e, s, w)) next h k = on_error (is_would_block e) e s w next h k
    after_attempt panic next h k = tt
    after_attempt out_of_fuel next h k = tt

    pub send_loop_keeps :
        (fuel : ℕ) (s : BingerUdp) (b : SendBatchRaw) (w : World)
        → P s
        → EnsuresSent P (send_batch env fuel s b w)
    unfolding send_batch
    send_loop_keeps zero s b w h = tt
    send_loop_keeps (suc fuel) s b w h =
        after_attempt (try_send_batch env s b w) (λ s' w'. send_batch env fuel s' b w')
          (try_send s b w h) (λ s' w' h'. send_loop_keeps fuel s' b w' h')

  module _ (attempt : (s : BingerUdp) (r : IoResult ℕ) → P s → P (after_platform_recv s r))
      (blocked : (s : BingerUdp) (w : World) → P s → P (blocked_recv env s w)) where
    pub try_recv :
        (s : BingerUdp) (b : RecvBatchRaw) (w : World)
        → P s
        → EnsuresReceived P (try_recv_batch env s b w)
    unfolding try_recv_batch
    try_recv s b w h = go (env.platform_recv s.fd b w)
      where
        go :
            (run : Run (IoResult ℕ × RecvBatchRaw × World))
            → EnsuresReceived P (run >>= λ (r, b', v). val (r, b', after_platform_recv s r, v))
        go (val (r, b', v)) = attempt s r h
        go panic = tt
        go out_of_fuel = tt

    await_keeps :
        (p : IoResult (Unit {0}) × World) (b : RecvBatchRaw) (s : BingerUdp)
        (next : World → Run (Received env))
        → P s
        → ((w : World) → EnsuresReceived P (next w))
        → EnsuresReceived P (await_recv env p b s next)
    await_keeps (ok u, w) b s next h k = k w
    await_keeps (err e, w) b s next h k = h

    abbrev Next : Type 0
    Next = RecvBatchRaw → BingerUdp → World → Run (Received env)

    retry_keeps :
        (b : RecvBatchRaw) (s : BingerUdp) (w : World) (next : Next)
        → P s
        → ((b' : RecvBatchRaw) (s' : BingerUdp) (w' : World)
            → P s'
            → EnsuresReceived P (next b' s' w'))
        → EnsuresReceived P (wait_and_retry env b s w next)
    retry_keeps b s w next h k =
        let s' = blocked_recv env s w in
        let h' = blocked s w h in
        await_keeps (env.wait_readable w) b s' (next b s') h' (λ w'. k b s' w' h')

    error_keeps :
        (c : Bool) (e : IoError) (b : RecvBatchRaw) (s : BingerUdp) (w : World) (next : Next)
        → P s
        → ((b' : RecvBatchRaw) (s' : BingerUdp) (w' : World)
            → P s'
            → EnsuresReceived P (next b' s' w'))
        → EnsuresReceived P (on_recv_error env c e b s w next)
    error_keeps true e b s w next h k = retry_keeps b s w next h k
    error_keeps false e b s w next h k = h

    after_recv_attempt :
        (run : Run (Received env)) (next : Next)
        → EnsuresReceived P run
        → ((b' : RecvBatchRaw) (s' : BingerUdp) (w' : World)
            → P s'
            → EnsuresReceived P (next b' s' w'))
        → EnsuresReceived P (run >>= λ (r, b, s, w). on_recv env r b s w next)
    after_recv_attempt (val (ok zero, b, s, w)) next h k = retry_keeps b s w next h k
    after_recv_attempt (val (ok (suc n), b, s, w)) next h k = h
    after_recv_attempt (val (err e, b, s, w)) next h k =
        error_keeps (is_would_block e) e b s w next h k
    after_recv_attempt panic next h k = tt
    after_recv_attempt out_of_fuel next h k = tt

    pub recv_loop_keeps :
        (fuel : ℕ) (s : BingerUdp) (b : RecvBatchRaw) (w : World)
        → P s
        → EnsuresReceived P (recv_batch env fuel s b w)
    unfolding recv_batch
    recv_loop_keeps zero s b w h = tt
    recv_loop_keeps (suc fuel) s b w h =
        after_recv_attempt (try_recv_batch env s b w) (λ b' s' w'. recv_batch env fuel s' b' w')
          (try_recv s b w h) (λ b' s' w' h'. recv_loop_keeps fuel s' b' w' h')
