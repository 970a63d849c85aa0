-- ===== src/Socket.antt =====
-- src/socket.rs: `BingerUdp` and its send and receive operations, with the features `tokio` and
-- `metrics`. An `async` function is a function of the fuel for its retries; what it awaits is a
-- call on the world.
pub mod Keeps
pub mod Sound
pub mod Retry
pub mod Arrival
pub mod Config
pub mod Capabilities
pub mod Setup
pub mod Opening
pub mod Reaches
pub mod Drop
pub mod Options
pub mod Gso
pub mod Threads
pub mod Contract
pub mod WithoutTokio
use binger_udp.Base.{
  ℕ, zero, suc, ◌+◌, Bool, true, false, Option, none, some, List, [], ◌∷◌, ◌++◌, ◌==◌, Run, ◌>>=◌,
  val, panic, out_of_fuel, take, drop, min, length,
}
use mathlib.Core.Option
use binger_udp.Error.{IoError, IoResult, Result, BingerError, ok, err, is_would_block}
use binger_udp.Net.{SocketAddr, Slice}
use binger_udp.Kernel.{Fd}
use binger_udp.Batch.Send.{SendBatchRaw}
use binger_udp.Batch.Send
use binger_udp.Batch.Recv.{RecvBatchRaw}
use binger_udp.Batch.Recv
use binger_udp.Adaptive.{AdaptiveState}
use binger_udp.Adaptive
use binger_udp.Metrics.{BingerMetrics}
use binger_udp.Metrics

-- `std::sync::Mutex`: once poisoned, `lock` fails.
pub record Mutex {ℓ} (A : Type ℓ) : Type ℓ where
  pub poisoned : Bool
  pub value : A

abbrev pub mutex {ℓ} : {A : Type ℓ} → A → Mutex A
mutex a = record { poisoned = false; value = a }

pub record BingerUdp : Type 0 where
  pub fd : Fd
  pub metrics : Option BingerMetrics
  pub adaptive_send : Option (Mutex AdaptiveState)
  pub adaptive_recv : Option (Mutex AdaptiveState)

-- `if let Some(ref state) = … { if let Ok(mut s) = state.lock() { … } }`
abbrev pub update_locked :
    (AdaptiveState → AdaptiveState) → Option (Mutex AdaptiveState) → Option (Mutex AdaptiveState)
update_locked f none = none
update_locked f (some m) =
    some (elim m.poisoned [ true ↦ m | false ↦ record m { value = f m.value } ])

-- The platform backend and the reactor: `now` and `later` are the two readings of the clock that
-- an adjustment makes.
pub record Env : Type 1 where
  pub World : Type 0
  pub platform_send : Fd → SendBatchRaw → World → Run (IoResult ℕ × World)
  pub platform_recv : Fd → RecvBatchRaw → World → Run (IoResult ℕ × RecvBatchRaw × World)
  pub wait_writable : World → IoResult (Unit {0}) × World
  pub wait_readable : World → IoResult (Unit {0}) × World
  pub now : World → ℕ
  pub later : World → ℕ

-- What a failed send adds to the counters.
unfoldable pub count_send_error : IoError → BingerMetrics → BingerMetrics
count_send_error e m =
    let m₁ = Metrics.inc_send_errors m in
    elim (is_would_block e) [ true ↦ Metrics.inc_send_would_block m₁ | false ↦ m₁ ]

unfoldable pub count_sent : ℕ → BingerMetrics → BingerMetrics
count_sent sent m =
    Metrics.inc_send_syscalls (Metrics.inc_batches_sent (Metrics.inc_packets_sent m sent))

unfoldable pub count_recv_error : IoError → BingerMetrics → BingerMetrics
count_recv_error e m =
    let m₁ = Metrics.inc_recv_errors m in
    elim (is_would_block e) [ true ↦ Metrics.inc_recv_would_block m₁ | false ↦ m₁ ]

unfoldable pub count_received : ℕ → BingerMetrics → BingerMetrics
count_received n m =
    Metrics.inc_recv_syscalls (Metrics.inc_batches_received (Metrics.inc_packets_received m n))

unfoldable pub after_platform_send : BingerUdp → IoResult ℕ → BingerUdp
unfolding count_send_error count_sent
after_platform_send s (err e) = record s { metrics = Option.map (count_send_error e) s.metrics }
after_platform_send s (ok sent) = record s {
  metrics = Option.map (count_sent sent) s.metrics;
  adaptive_send = update_locked Adaptive.record_event s.adaptive_send;
}

unfoldable pub after_platform_recv : BingerUdp → IoResult ℕ → BingerUdp
unfolding count_recv_error count_received
after_platform_recv s (err e) = record s { metrics = Option.map (count_recv_error e) s.metrics }
after_platform_recv s (ok received) = record s {
  metrics = Option.map (count_received received) s.metrics;
  adaptive_recv = update_locked Adaptive.record_event s.adaptive_recv;
}

module _ (env : Env) where
  open env use {World}

  abbrev pub Sent : Type 0
  Sent = IoResult ℕ × BingerUdp × World

  abbrev pub Received : Type 0
  Received = IoResult ℕ × RecvBatchRaw × BingerUdp × World

  unfoldable pub try_send_batch : BingerUdp → SendBatchRaw → World → Run Sent
  unfolding after_platform_send
  try_send_batch s b w = do
    (r, w') ← env.platform_send s.fd b w
    val (r, after_platform_send s r, w')

  unfoldable pub try_recv_batch : BingerUdp → RecvBatchRaw → World → Run Received
  unfolding after_platform_recv
  try_recv_batch s b w = do
    (r, b', w') ← env.platform_recv s.fd b w
    val (r, b', after_platform_recv s r, w')

  -- `s.record_would_block(); s.maybe_adjust();`
  abbrev pub note_would_block : World → AdaptiveState → AdaptiveState
  note_would_block w a =
      Adaptive.maybe_adjust (env.now w) (env.later w) (Adaptive.record_would_block a)

  abbrev pub blocked_send : BingerUdp → World → BingerUdp
  blocked_send s w = record s { adaptive_send = update_locked (note_would_block w) s.adaptive_send }

  abbrev pub blocked_recv : BingerUdp → World → BingerUdp
  blocked_recv s w = record s { adaptive_recv = update_locked (note_would_block w) s.adaptive_recv }

  -- `wait_writable().await?`, then the next round.
  abbrev pub await_send : IoResult (Unit {0}) × World → BingerUdp → (World → Run Sent) → Run Sent
  await_send (ok _, w) s next = next w
  await_send (err e, w) s next = val (err e, s, w)

  abbrev pub on_send_error :
      Bool → IoError → BingerUdp → World → (BingerUdp → World → Run Sent) → Run Sent
  on_send_error true e s w next =
      let s' = blocked_send s w in await_send (env.wait_writable w) s' (next s')
  on_send_error false e s w next = val (err e, s, w)

  abbrev pub on_send : IoResult ℕ → BingerUdp → World → (BingerUdp → World → Run Sent) → Run Sent
  on_send (ok n) s w next = val (ok n, s, w)
  on_send (err e) s w next = on_send_error (is_would_block e) e s w next

  -- The loop of `send_batch`, for at most `fuel` rounds.
  unfoldable pub send_batch : ℕ → BingerUdp → SendBatchRaw → World → Run Sent
  unfolding try_send_batch
  send_batch zero s b w = out_of_fuel
  send_batch (suc fuel) s b w = do
    (r, s', w') ← try_send_batch s b w
    on_send r s' w' (λ s'' w''. send_batch fuel s'' b w'')

  abbrev pub await_recv :
      IoResult (Unit {0}) × World → RecvBatchRaw → BingerUdp → (World → Run Received) → Run Received
  await_recv (ok _, w) b s next = next w
  await_recv (err e, w) b s next = val (err e, b, s, w)

  abbrev pub wait_and_retry :
      RecvBatchRaw
      → BingerUdp
      → World
      → (RecvBatchRaw → BingerUdp → World → Run Received)
      → Run Received
  wait_and_retry b s w next =
      let s' = blocked_recv s w in await_recv (env.wait_readable w) b s' (next b s')

  abbrev pub on_recv_error :
      Bool
      → IoError
      → RecvBatchRaw
      → BingerUdp
      → World
      → (RecvBatchRaw → BingerUdp → World → Run Received)
      → Run Received
  on_recv_error true e b s w next = wait_and_retry b s w next
  on_recv_error false e b s w next = val (err e, b, s, w)

  -- `Ok(0)` waits as a would-block error does.
  abbrev pub on_recv :
      IoResult ℕ
      → RecvBatchRaw
      → BingerUdp
      → World
      → (RecvBatchRaw → BingerUdp → World → Run Received)
      → Run Received
  on_recv (ok zero) b s w next = wait_and_retry b s w next
  on_recv (ok (suc n)) b s w next = val (ok (suc n), b, s, w)
  on_recv (err e) b s w next = on_recv_error (is_would_block e) e b s w next

  -- The loop of `recv_batch`, for at most `fuel` rounds.
  unfoldable pub recv_batch : ℕ → BingerUdp → RecvBatchRaw → World → Run Received
  unfolding try_recv_batch
  recv_batch zero s b w = out_of_fuel
  recv_batch (suc fuel) s b w = do
    (r, b', s', w') ← try_recv_batch s b w
    on_recv r b' s' w' (λ b'' s'' w''. recv_batch fuel s'' b'' w'')

  -- The batch of one datagram: `push(…).expect("capacity 1")`.
  abbrev pub expect : Result BingerError (Unit {0}) × SendBatchRaw → Run SendBatchRaw
  expect (ok _, b) = val b
  expect (err _, b) = panic

  unfoldable pub single : Slice → SocketAddr → Run SendBatchRaw
  single buf a = expect (Send.push (Send.with_capacity 1) buf (some a))

  -- `…?; Ok(buf.len())`
  abbrev pub all_sent : Slice → IoResult ℕ → IoResult ℕ
  all_sent buf (ok _) = ok buf.len
  all_sent buf (err e) = err e

  unfoldable pub send_to : ℕ → BingerUdp → Slice → SocketAddr → World → Run Sent
  unfolding single send_batch
  send_to fuel s buf a w = do
    b ← single buf a
    (r, s', w') ← send_batch fuel s b w
    val (all_sent buf r, s', w')

  unfoldable pub try_send_to : BingerUdp → Slice → SocketAddr → World → Run Sent
  unfolding single try_send_batch
  try_send_to s buf a w = do
    b ← single buf a
    (r, s', w') ← try_send_batch s b w
    val (all_sent buf r, s', w')

  -- The count with the source, the buffer afterwards, the socket and the world.
  abbrev pub ReceivedFrom : Type 0
  ReceivedFrom = IoResult (ℕ × SocketAddr) × List ℕ × BingerUdp × World

  -- `buf[..len].copy_from_slice(&data[..len])`
  abbrev pub copy_into : List ℕ → List ℕ → ℕ → List ℕ
  copy_into buf bytes n = take n bytes ++ drop n buf

  abbrev pub on_received : IoResult ℕ → RecvBatchRaw → List ℕ → BingerUdp → World → Run ReceivedFrom
  on_received (ok _) b buf s w = do
    bytes ← Recv.payload b 0
    a ← Recv.addr b 0
    let n = min (length bytes) (length buf)
    val (ok (n, a), copy_into buf bytes n, s, w)
  on_received (err e) b buf s w = val (err e, buf, s, w)

  unfoldable pub recv_from : ℕ → BingerUdp → List ℕ → World → Run ReceivedFrom
  unfolding recv_batch
  recv_from fuel s buf w = do
    (r, b, s', w') ← recv_batch fuel s (Recv.with_capacity 1 (length buf)) w
    on_received r b buf s' w'

-- `adaptive_send.as_ref().and_then(|s| s.lock().ok()).map_or(32, |g| g.recommended_size())`
unfoldable pub recommended_batch_size : BingerUdp → ℕ
recommended_batch_size s = elim s.adaptive_send [
  | none ↦ 32
  | some m ↦ elim m.poisoned [ true ↦ 32 | false ↦ Adaptive.recommended_size m.value ]
]
