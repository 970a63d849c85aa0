-- ===== src/Socket/Reaches.antt =====
-- src/socket.rs: the states of a socket over its life, from `from_std` through any calls.
use binger_udp.Base.{ℕ, ◌≡◌, subst, Run, ◌>>=◌, val, panic, out_of_fuel, List, min, length}
use binger_udp.Error.{IoResult, ok, err}
use binger_udp.Net.{SocketAddr, Slice, Endian}
use binger_udp.Kernel.{Kernel, Fd}
use binger_udp.Batch.Send.{SendBatchRaw}
use binger_udp.Batch.Recv.{RecvBatchRaw}
use binger_udp.Batch.Recv
use binger_udp.Socket.{
  BingerUdp, Env, try_send_batch, try_recv_batch, send_batch, recv_batch, single, all_sent, send_to,
  try_send_to, copy_into, on_received, recv_from, ReceivedFrom,
}
use binger_udp.Socket.Config.{Config}
use binger_udp.Socket.Setup.{Runtime, from_std}
use binger_udp.Socket.Opening.{from_std-in_order}
use binger_udp.Socket.Keeps.{
  EnsuresSent, EnsuresReceived, try_send, try_recv, send_loop_keeps, recv_loop_keeps,
}
use binger_udp.Socket.Sound.{
  IsSound, sent-IsSound, received-IsSound, blocked_send-IsSound, blocked_recv-IsSound,
}

module _ (env : Env) where
  open env use {World}

  -- A call that returns, with whatever result, and the socket that it leaves.
  pub data Step (s : BingerUdp) : BingerUdp → Type 0 where
    tries_send :
        {t : BingerUdp} (b : SendBatchRaw) (w v : World) (r : IoResult ℕ)
        → try_send_batch env s b w ≡ val (r, t, v)
        → Step s t
    tries_recv :
        {t : BingerUdp} (b b' : RecvBatchRaw) (w v : World) (r : IoResult ℕ)
        → try_recv_batch env s b w ≡ val (r, b', t, v)
        → Step s t
    sends :
        {t : BingerUdp} (fuel : ℕ) (b : SendBatchRaw) (w v : World) (r : IoResult ℕ)
        → send_batch env fuel s b w ≡ val (r, t, v)
        → Step s t
    receives :
        {t : BingerUdp} (fuel : ℕ) (b b' : RecvBatchRaw) (w v : World) (r : IoResult ℕ)
        → recv_batch env fuel s b w ≡ val (r, b', t, v)
        → Step s t
    sends_to :
        {t : BingerUdp} (fuel : ℕ) (buf : Slice) (a : SocketAddr) (w v : World) (r : IoResult ℕ)
        → send_to env fuel s buf a w ≡ val (r, t, v)
        → Step s t
    tries_send_to :
        {t : BingerUdp} (buf : Slice) (a : SocketAddr) (w v : World) (r : IoResult ℕ)
        → try_send_to env s buf a w ≡ val (r, t, v)
        → Step s t
    receives_from :
        {t : BingerUdp} (fuel : ℕ) (buf buf' : List ℕ) (w v : World) (r : IoResult (ℕ × SocketAddr))
        → recv_from env fuel s buf w ≡ val (r, buf', t, v)
        → Step s t

  pub data Reaches (s : BingerUdp) : BingerUdp → Type 0 where
    here : Reaches s s
    then_step : {t u : BingerUdp} → Reaches s t → Step t u → Reaches s u

  sent_keeps :
      (b : Run SendBatchRaw) (f : IoResult ℕ → IoResult ℕ)
      (go : SendBatchRaw → Run (IoResult ℕ × BingerUdp × World))
      → ((b : SendBatchRaw) → EnsuresSent IsSound (go b))
      → EnsuresSent IsSound (b >>= λ b. go b >>= λ (r, s, w). val (f r, s, w))
  sent_keeps panic f go h = tt
  sent_keeps out_of_fuel f go h = tt
  sent_keeps (val b) f go h = finish (go b) (h b)
    where
      finish :
          (run : Run (IoResult ℕ × BingerUdp × World))
          → EnsuresSent IsSound run
          → EnsuresSent IsSound (run >>= λ (r, s, w). val (f r, s, w))
      finish (val (r, s, w)) k = k
      finish panic k = tt
      finish out_of_fuel k = tt

  abbrev EnsuresReceivedFrom : Run (ReceivedFrom env) → Type 0
  EnsuresReceivedFrom (val (r, buf, s, w)) = IsSound s
  EnsuresReceivedFrom panic = Unit {0}
  EnsuresReceivedFrom out_of_fuel = Unit {0}

  on_received-IsSound :
      (r : IoResult ℕ) (b : RecvBatchRaw) (buf : List ℕ) (s : BingerUdp) (w : World)
      → IsSound s
      → EnsuresReceivedFrom (on_received env r b buf s w)
  on_received-IsSound (err e) b buf s w h = h
  on_received-IsSound (ok n) b buf s w h = finish (Recv.payload b 0) (Recv.addr b 0)
    where
      finish :
          (p : Run (List ℕ)) (q : Run SocketAddr)
          → EnsuresReceivedFrom (
              p >>= λ bytes. q >>= λ a. val (
                ok (min (length bytes) (length buf), a),
                copy_into env buf bytes (min (length bytes) (length buf)),
                s,
                w,
              ))
      finish (val bytes) (val a) = h
      finish (val bytes) panic = tt
      finish (val bytes) out_of_fuel = tt
      finish panic q = tt
      finish out_of_fuel q = tt

  send_batch-IsSound :
      (fuel : ℕ) (s : BingerUdp) (b : SendBatchRaw) (w : World)
      → IsSound s
      → EnsuresSent IsSound (send_batch env fuel s b w)
  send_batch-IsSound = send_loop_keeps env IsSound sent-IsSound (blocked_send-IsSound env)

  recv_batch-IsSound :
      (fuel : ℕ) (s : BingerUdp) (b : RecvBatchRaw) (w : World)
      → IsSound s
      → EnsuresReceived IsSound (recv_batch env fuel s b w)
  recv_batch-IsSound = recv_loop_keeps env IsSound received-IsSound (blocked_recv-IsSound env)

  recv_from-IsSound :
      (fuel : ℕ) (s : BingerUdp) (buf : List ℕ) (w : World)
      → IsSound s
      → EnsuresReceivedFrom (recv_from env fuel s buf w)
  unfolding recv_from
  recv_from-IsSound fuel s buf w h =
      finish (recv_batch env fuel s (Recv.with_capacity 1 (length buf)) w)
        (recv_batch-IsSound fuel s (Recv.with_capacity 1 (length buf)) w h)
    where
      finish :
          (run : Run (IoResult ℕ × RecvBatchRaw × BingerUdp × World))
          → EnsuresReceived IsSound run
          → EnsuresReceivedFrom (run >>= λ (r, b, s', w'). on_received env r b buf s' w')
      finish (val (r, b, s', w')) k = on_received-IsSound r b buf s' w' k
      finish panic k = tt
      finish out_of_fuel k = tt

  send_to-IsSound :
      (fuel : ℕ) (s : BingerUdp) (buf : Slice) (a : SocketAddr) (w : World)
      → IsSound s
      → EnsuresSent IsSound (send_to env fuel s buf a w)
  unfolding send_to
  send_to-IsSound fuel s buf a w h =
      sent_keeps (single env buf a) (all_sent env buf) (λ b. send_batch env fuel s b w)
        (λ b. send_batch-IsSound fuel s b w h)

  try_send_to-IsSound :
      (s : BingerUdp) (buf : Slice) (a : SocketAddr) (w : World)
      → IsSound s
      → EnsuresSent IsSound (try_send_to env s buf a w)
  unfolding try_send_to
  try_send_to-IsSound s buf a w h =
      sent_keeps (single env buf a) (all_sent env buf) (λ b. try_send_batch env s b w)
        (λ b. try_send env IsSound sent-IsSound (blocked_send-IsSound env) s b w h)

  pub Step-IsSound : {s t : BingerUdp} → Step s t → IsSound s → IsSound t
  Step-IsSound {s} (Step.tries_send b w v r p) h =
      subst (EnsuresSent IsSound) p
        (try_send env IsSound sent-IsSound (blocked_send-IsSound env) s b w h)
  Step-IsSound {s} (Step.tries_recv b b' w v r p) h =
      subst (EnsuresReceived IsSound) p
        (try_recv env IsSound received-IsSound (blocked_recv-IsSound env) s b w h)
  Step-IsSound {s} (Step.sends fuel b w v r p) h =
      subst (EnsuresSent IsSound) p (send_batch-IsSound fuel s b w h)
  Step-IsSound {s} (Step.receives fuel b b' w v r p) h =
      subst (EnsuresReceived IsSound) p (recv_batch-IsSound fuel s b w h)
  Step-IsSound {s} (Step.sends_to fuel buf a w v r p) h =
      subst (EnsuresSent IsSound) p (send_to-IsSound fuel s buf a w h)
  Step-IsSound {s} (Step.tries_send_to buf a w v r p) h =
      subst (EnsuresSent IsSound) p (try_send_to-IsSound s buf a w h)
  Step-IsSound {s} (Step.receives_from fuel buf buf' w v r p) h =
      subst EnsuresReceivedFrom p (recv_from-IsSound fuel s buf w h)

  reached-IsSound : {s t : BingerUdp} → Reaches s t → IsSound s → IsSound t
  reached-IsSound here h = h
  reached-IsSound (then_step r p) h = Step-IsSound p (reached-IsSound r h)

-- A socket that `from_std` opened is sound after any sequence of calls, of whatever results, over
-- any platform and reactor: as many system calls counted as batches in each direction, and target
-- sizes from 1 to 1024.
pub Reaches-IsSound :
    (k : Kernel) (e : Endian) (rt : Runtime k.World) (env : Env) (fd : Fd) (c : Config)
    (w v : k.World) (s t : BingerUdp)
    → from_std k e rt fd c w ≡ (ok s, v)
    → Reaches env s t
    → IsSound t
Reaches-IsSound k e rt env fd c w v s t opened reached =
    reached-IsSound env reached ((from_std-in_order k e rt fd c w).1 s v opened).1
