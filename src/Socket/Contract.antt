-- ===== src/Socket/Contract.antt =====
-- src/socket.rs and src/platform/mod.rs: what the socket relies on of its platform backend, and what
-- it promises over any backend that keeps it.
pub mod Sending
pub mod Waking
pub mod Receiving
pub mod Arriving
use binger_udp.Base.{ℕ, ◌≤◌, ◌<◌, ◌≡◌, List, map, length, Run, val, panic, out_of_fuel, ◌>>=◌}
use binger_udp.Error.{IoResult, ok, err}
use binger_udp.Kernel.{Fd}
use binger_udp.Batch.Send.{SendBatchRaw}
use binger_udp.Batch.Send
use binger_udp.Batch.Recv.{RecvBatchRaw, All}
use binger_udp.Batch.Recv
use binger_udp.Socket.{Env}

abbrev pub CountsAtMost : ℕ → IoResult ℕ → Type 0
CountsAtMost n (ok m) = m ≤ n
CountsAtMost n (err x) = Unit {0}

-- The sizes of the buffers of a batch.
abbrev pub sizes : RecvBatchRaw → List ℕ
sizes b = map (λ s. length s.buf) b.slots

-- The buffers are below 64 KiB, so that `recv_len` holds what they may receive.
abbrev pub AreShort : RecvBatchRaw → Type 0
AreShort b = All (λ n. n < 65536) (sizes b)

-- A batch after a reception: valid, over the same buffers.
pub record Kept (b b' : RecvBatchRaw) : Type 0 where
  pub valid : Recv.IsValid b'
  pub same_sizes : sizes b' ≡ sizes b

-- A count of datagrams is the length of the batch.
abbrev pub Reported : RecvBatchRaw → IoResult ℕ → Type 0
Reported b (ok n) = 0 < n → b.len ≡ n
Reported b (err x) = Unit {0}

-- The platform answers on every valid batch, without a panic: a send counts at most the entries
-- of the batch, and a reception leaves a valid batch over the same buffers that holds as many
-- datagrams as it counts.
pub record Contract (env : Env) : Type 0 where
  pub sends :
      (fd : Fd) (b : SendBatchRaw) (w : env.World)
      → Send.IsValid b
      → (r : IoResult ℕ) × (v : env.World) × (env.platform_send fd b w ≡ val (r, v))
        × CountsAtMost b.len r
  pub receives :
      (fd : Fd) (b : RecvBatchRaw) (w : env.World)
      → Recv.IsValid b
      → AreShort b
      → (r : IoResult ℕ) × (b' : RecvBatchRaw) × (v : env.World) × (env.platform_recv fd b w
          ≡ val (r, b', v))
        × Kept b b'
        × Reported b' r

-- A run does not panic, and what it returns satisfies a property.
abbrev pub Returns : {A : Type 0} → (A → Type 0) → Run A → Type 0
Returns P (val a) = P a
Returns P panic = ⊥
Returns P out_of_fuel = Unit {0}
