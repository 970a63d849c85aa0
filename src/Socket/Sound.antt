-- ===== src/Socket/Sound.antt =====
-- src/socket.rs: what every send and receive keeps of the socket's state.
use binger_udp.Base.{ℕ, ◌≡◌, Option, none, some, arith}
use binger_udp.Error.{IoError, IoResult, ok, err}
use binger_udp.Batch.Send.{SendBatchRaw}
use binger_udp.Batch.Recv.{RecvBatchRaw}
use binger_udp.Adaptive.{AdaptiveState, Event, record_event, step}
use binger_udp.Adaptive.Bounds.{InBounds, step-InBounds}
use binger_udp.Metrics.{
  BingerMetrics, inc_packets_sent, inc_packets_received, inc_batches_sent, inc_batches_received,
  inc_send_syscalls, inc_recv_syscalls, inc_send_errors, inc_recv_errors, inc_send_would_block,
  inc_recv_would_block,
}
use binger_udp.Socket.{
  BingerUdp, Mutex, Env, update_locked, after_platform_send, after_platform_recv, blocked_send,
  blocked_recv, note_would_block, send_batch, recv_batch,
}
use mathlib.Core.Option
use binger_udp.Socket.{count_send_error, count_recv_error, count_sent, count_received}
use binger_udp.Socket.Keeps.{EnsuresSent, EnsuresReceived, send_loop_keeps, recv_loop_keeps}

-- As many system calls are counted as batches, in each direction.
abbrev pub Agree : Option BingerMetrics → Type 0
Agree none = Unit {0}
Agree (some m) = (m.batches_sent ≡ m.send_syscalls) × (m.batches_received ≡ m.recv_syscalls)

abbrev pub TargetInBounds : Option (Mutex AdaptiveState) → Type 0
TargetInBounds none = Unit {0}
TargetInBounds (some m) = InBounds m.value

pub record IsSound (s : BingerUdp) : Type 0 where
  pub agree : Agree s.metrics
  pub send_target : TargetInBounds s.adaptive_send
  pub recv_target : TargetInBounds s.adaptive_recv

pub update_locked-InBounds :
    (f : AdaptiveState → AdaptiveState) (m : Option (Mutex AdaptiveState))
    → ((a : AdaptiveState) → InBounds a → InBounds (f a))
    → TargetInBounds m
    → TargetInBounds (update_locked f m)
update_locked-InBounds f none keep h = tt
update_locked-InBounds f (some m) keep h = ground (arith, keep m.value h)

pub record_event-InBounds : (a : AdaptiveState) → InBounds a → InBounds (record_event a)
unfolding step
record_event-InBounds a h = step-InBounds a Event.event h

module _ (env : Env) (w : env.World) where
  note-InBounds : (a : AdaptiveState) → InBounds a → InBounds (note_would_block env w a)
  unfolding step
  note-InBounds a h =
      step-InBounds (step a Event.would_block) (Event.adjust (env.now w) (env.later w))
        (step-InBounds a Event.would_block h)

count_send_error-Agree :
    (e : IoError) (m : BingerMetrics) → Agree (some m) → Agree (some (count_send_error e m))
unfolding count_send_error inc_send_errors inc_send_would_block
count_send_error-Agree e m h = ground arith

count_recv_error-Agree :
    (e : IoError) (m : BingerMetrics) → Agree (some m) → Agree (some (count_recv_error e m))
unfolding count_recv_error inc_recv_errors inc_recv_would_block
count_recv_error-Agree e m h = ground arith

count_sent-Agree : (n : ℕ) (m : BingerMetrics) → Agree (some m) → Agree (some (count_sent n m))
unfolding count_sent inc_send_syscalls inc_batches_sent inc_packets_sent
count_sent-Agree n m h = ground arith

count_received-Agree :
    (n : ℕ) (m : BingerMetrics) → Agree (some m) → Agree (some (count_received n m))
unfolding count_received inc_recv_syscalls inc_batches_received inc_packets_received
count_received-Agree n m h = ground arith

map-Agree :
    (f : BingerMetrics → BingerMetrics) (m : Option BingerMetrics)
    → ((x : BingerMetrics) → Agree (some x) → Agree (some (f x)))
    → Agree m
    → Agree (Option.map f m)
map-Agree f none keep h = tt
map-Agree f (some x) keep h = keep x h

pub sent-IsSound : (s : BingerUdp) (r : IoResult ℕ) → IsSound s → IsSound (after_platform_send s r)
unfolding after_platform_send
sent-IsSound s (ok n) v = record {
  recv_target = v.recv_target;
  agree = map-Agree (count_sent n) s.metrics (count_sent-Agree n) v.agree;
  send_target =
      update_locked-InBounds record_event s.adaptive_send record_event-InBounds v.send_target;
}
sent-IsSound s (err e) v = record {
  agree = map-Agree (count_send_error e) s.metrics (count_send_error-Agree e) v.agree;
  send_target = v.send_target;
  recv_target = v.recv_target;
}

pub received-IsSound :
    (s : BingerUdp) (r : IoResult ℕ) → IsSound s → IsSound (after_platform_recv s r)
unfolding after_platform_recv
received-IsSound s (ok n) v = record {
  send_target = v.send_target;
  agree = map-Agree (count_received n) s.metrics (count_received-Agree n) v.agree;
  recv_target =
      update_locked-InBounds record_event s.adaptive_recv record_event-InBounds v.recv_target;
}
received-IsSound s (err e) v = record {
  agree = map-Agree (count_recv_error e) s.metrics (count_recv_error-Agree e) v.agree;
  send_target = v.send_target;
  recv_target = v.recv_target;
}

module _ (env : Env) where
  open env use {World}

  pub blocked_send-IsSound :
      (s : BingerUdp) (w : World) → IsSound s → IsSound (blocked_send env s w)
  blocked_send-IsSound s w v = record {
    agree = v.agree;
    send_target =
        update_locked-InBounds (note_would_block env w) s.adaptive_send (note-InBounds env w)
          v.send_target;
    recv_target = v.recv_target;
  }

  pub blocked_recv-IsSound :
      (s : BingerUdp) (w : World) → IsSound s → IsSound (blocked_recv env s w)
  blocked_recv-IsSound s w v = record {
    agree = v.agree;
    send_target = v.send_target;
    recv_target =
        update_locked-InBounds (note_would_block env w) s.adaptive_recv (note-InBounds env w)
          v.recv_target;
  }

  -- Whatever the platform and the reactor answer, and however many rounds it takes, `send_batch`
  -- and `recv_batch` leave a sound socket where they return: as many system calls counted as
  -- batches in each direction, and target sizes from 1 to 1024.
  pub batch_operations-IsSound :
      (fuel : ℕ) (s : BingerUdp) (sb : SendBatchRaw) (rb : RecvBatchRaw) (w : World)
      → IsSound s
      → EnsuresSent IsSound (send_batch env fuel s sb w)
        × EnsuresReceived IsSound (recv_batch env fuel s rb w)
  batch_operations-IsSound fuel s sb rb w v = (
    send_loop_keeps env IsSound sent-IsSound blocked_send-IsSound fuel s sb w v,
    recv_loop_keeps env IsSound received-IsSound blocked_recv-IsSound fuel s rb w v,
  )
