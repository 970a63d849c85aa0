-- ===== src/Tests/Threads.antt =====
-- Two threads that share a socket.
use mathlib.Core.Option
use binger_udp.Base.{ℕ, arith, ◌≡◌, refl, some, List, [], ◌∷◌, map}
use binger_udp.Error.{ok}
use binger_udp.Metrics.{default}
use binger_udp.Metrics
use binger_udp.Metrics.History.{Counter}
use binger_udp.Adaptive
use binger_udp.Socket.{BingerUdp, send_batch, recv_batch}
use binger_udp.Socket.Keeps.{EnsuresSent, EnsuresReceived}
use binger_udp.Socket.Threads.{
  Direction, Critical, Effect, Attempt, Steps, first, other, none_yet, then_steps, effects, program,
  perform,
}
use binger_udp.Socket.Threads.Serial.{run_threads, Steps-serial}
use binger_udp.Socket.Threads.Steady.{AreInBounds, AreConserved, Steps-AreConserved}
use binger_udp.Socket.Threads.Traces.{Traced, batch_operations-Traced}
use binger_udp.Tests.Batches.{two_waiting, one_received}
use binger_udp.Tests.Sockets.{env, socket}

-- The one sends two datagrams, the other one.
abbrev threads : List (List Attempt)
threads = (Attempt.sent (ok 2) ∷ []) ∷ (Attempt.sent (ok 1) ∷ []) ∷ []

abbrev programs : List (List Effect)
programs = map program threads

-- The rounds' effects after the batch is counted.
abbrev rest : List Effect
rest = Effect.count Counter.send_syscalls 1 ∷ []

abbrev started : ℕ → BingerUdp → BingerUdp
started n s =
    perform (Effect.count Counter.batches_sent 1)
      (perform (Effect.count Counter.packets_sent n) (perform (Effect.on_send Critical.event) s))

-- Both count their datagrams and their batch before either counts its system call.
abbrev halfway : BingerUdp
halfway = started 2 (started 1 socket)

to_halfway : Steps programs socket (rest ∷ rest ∷ []) halfway
unfolding program effects
to_halfway = then_steps (other first) (
    then_steps (other first)
      (then_steps (other first) (then_steps first (then_steps first (then_steps first none_yet)))))

abbrev finish : BingerUdp → BingerUdp
finish s = perform (Effect.count Counter.send_syscalls 1) s

from_halfway : Steps (rest ∷ rest ∷ []) halfway ([] ∷ [] ∷ []) (finish (finish halfway))
from_halfway = then_steps first (then_steps (other first) none_yet)

to_end : Steps programs socket ([] ∷ [] ∷ []) (finish (finish halfway))
unfolding program effects
to_end = then_steps (other first) (
    then_steps (other first) (
      then_steps (other first)
        (then_steps first (then_steps first (then_steps first from_halfway)))))

Steps-serial_example : (finish (finish halfway)).metrics ≡ (run_threads threads socket).metrics
Steps-serial_example =
    Steps-serial threads ([] ∷ [] ∷ []) socket (finish (finish halfway)) to_end tt

socket-AreInBounds : AreInBounds socket
unfolding Adaptive.new
socket-AreInBounds = (omega arith, tt)

Steps-AreConserved_example :
    AreInBounds halfway × AreConserved programs socket.metrics (rest ∷ rest ∷ []) halfway.metrics
Steps-AreConserved_example =
    Steps-AreConserved programs (rest ∷ rest ∷ []) socket halfway to_halfway socket-AreInBounds

-- Halfway two batches are counted and no system call.
halfway-counts :
    Option.map {B = ℕ × ℕ} (λ m. (m.batches_sent, m.send_syscalls)) halfway.metrics ≡ some (2, 0)
unfolding perform default Metrics.inc_packets_sent Metrics.inc_batches_sent
halfway-counts = refl

batch_operations-Traced_example :
    EnsuresSent (Traced Direction.sending socket) (send_batch env 2 socket two_waiting 0)
    × EnsuresReceived (Traced Direction.receiving socket) (recv_batch env 2 socket one_received 0)
batch_operations-Traced_example = batch_operations-Traced env 2 socket two_waiting one_received 0
