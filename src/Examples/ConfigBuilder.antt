-- ===== src/Examples/ConfigBuilder.antt =====
-- examples/config_builder.rs, on Linux: two sockets, one with a configuration of its own, and one
-- datagram between them. A run returns what the program prints about it.
pub mod Prints
use binger_udp.Base.{ℕ, Option, none, some, List, Run, ◌>>=◌, val, ltb, if◌then◌else◌}
use binger_udp.Error.{IoResult, ok, err}
use binger_udp.Net.{SocketAddr, Slice, Endian}
use binger_udp.Kernel.{Kernel, Fd}
use binger_udp.Batch.Send.{push_to}
use binger_udp.Batch.Send
use binger_udp.Batch.Recv.{RecvBatchRaw, payload}
use binger_udp.Batch.Typed
use binger_udp.Socket.{BingerUdp, Env, send_batch, recv_batch}
use binger_udp.Socket.Config.{Config, default, with_batch_size, with_send_buf_size}
use binger_udp.Socket.Config
use binger_udp.Socket.Setup.{Runtime, from_std}
use binger_udp.Socket.Options.{local_addr}
use binger_udp.Backend.{Reactor, linux_env}
use binger_udp.Examples.Select.{unwrap}

unfoldable pub config : Config
config = with_send_buf_size (with_batch_size Config.new 16) 65536

-- `sent`, `n` and, where a datagram came, its bytes.
abbrev pub Printed : Type 0
Printed = ℕ × ℕ × Option (List ℕ)

-- From `Config::new()` on, the sockets: the receiver, its address and the sender.
abbrev pub Opened : Type 0
Opened = BingerUdp × SocketAddr × BingerUdp

-- `let a = step?; rest`
abbrev pub and_then : {W A B : Type 0} → IoResult A × W → (A → W → IoResult B × W) → IoResult B × W
and_then (ok a, w) next = next a w
and_then (err x, w) next = (err x, w)

-- `UdpSocket::bind` is a call of std.
module _ (k : Kernel) (e : Endian) (rt : Runtime k.World)
    (bind : k.World → IoResult Fd × k.World) where
  open k use {World}

  unfoldable pub open_sockets : World → IoResult Opened × World
  open_sockets w = and_then (bind w) λ fd w₁. and_then (from_std k e rt fd config w₁) λ receiver w₂.
      and_then (local_addr k e receiver w₂) λ recv_addr w₃. and_then (bind w₃) λ fd' w₄.
        and_then (from_std k e rt fd' default w₄)
          λ sender w₅. (ok (receiver, recv_addr, sender), w₅)

module _ (env : Env) (fuel : ℕ) where
  open env use {World}

  abbrev pub after_recv_batch : ℕ → IoResult ℕ → RecvBatchRaw → Run (IoResult Printed)
  after_recv_batch sent (err x) b = val (err x)
  after_recv_batch sent (ok n) b =
      if ltb 0 n
      then (payload b 0 >>= λ bytes. val (ok (sent, n, some bytes)))
      else val (ok (sent, n, none))

  abbrev pub after_send_batch : IoResult ℕ → BingerUdp → World → Run (IoResult Printed)
  after_send_batch (err x) receiver w = val (err x)
  after_send_batch (ok sent) receiver w = do
    (r, b, s, w') ← recv_batch env fuel receiver (Typed.new 1 2048).raw w
    after_recv_batch sent r b

  -- From `SendBatch::<1>::new()` on.
  unfoldable pub exchange : Slice → Opened → World → Run (IoResult Printed)
  exchange msg (receiver, recv_addr, sender) w = do
    b ← unwrap (push_to 1 (Send.new 1) msg recv_addr)
    (r, s, w') ← send_batch env fuel sender b.raw w
    after_send_batch r receiver w'

module _ (k : Kernel) (e : Endian) (reactor : Reactor k.World) (recv_fuel : ℕ)
    (rt : Runtime k.World) (bind : k.World → IoResult Fd × k.World) (fuel : ℕ) (msg : Slice) where
  open k use {World}

  abbrev pub after_open : IoResult Opened × World → Run (IoResult Printed)
  after_open (err x, w) = val (err x)
  after_open (ok sockets, w) = exchange (linux_env k e reactor recv_fuel) fuel msg sockets w

  unfoldable pub main : World → Run (IoResult Printed)
  unfolding open_sockets exchange
  main w = after_open (open_sockets k e rt bind w)
