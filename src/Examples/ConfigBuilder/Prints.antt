-- ===== src/Examples/ConfigBuilder/Prints.antt =====
-- examples/config_builder.rs: what the program prints.
use binger_udp.Base.{
  ℕ, zero, suc, ◌≤◌, ◌<◌, ◌+◌, ◌≡◌, refl, ◌∙◌, ap, some, List, [], ◌∷◌, length, Run, ◌>>=◌, val,
  panic, out_of_fuel, arith, length-replicate,
}
use binger_udp.Error.{IoResult, ok, err}
use binger_udp.Net.{SocketAddr, Slice, Endian}
use binger_udp.Kernel.{Kernel, Fd}
use binger_udp.Sockaddr.RoundTrip.{InRange}
use binger_udp.Batch.Send.{SendBatchRaw, Entry, entries, push, push_to}
use binger_udp.Batch.Send
use binger_udp.Batch.Recv.{RecvBatchRaw, payload, addr, iter, iter_from}
use binger_udp.Batch.Recv
use binger_udp.Batch.Recv.Slots.{with_capacity-IsValid}
use binger_udp.Batch.Typed
use binger_udp.Socket.{BingerUdp}
use binger_udp.Socket.Setup.{Runtime}
use binger_udp.Backend.{Reactor, linux_env}
use binger_udp.Backend.Loopback.{Lossless, recv_batch-send_batch}
use binger_udp.Examples.ConfigBuilder.{Opened, Printed, open_sockets, exchange, after_open, main}

>>=-val :
    {A B : Type 0} (m : Run A) (f : A → Run B) (b : B)
    → (m >>= f) ≡ val b
    → (a : A) × (m ≡ val a) × (f a ≡ val b)
>>=-val (val a) f b h = (a, refl, h)
>>=-val panic f b h = cc
>>=-val out_of_fuel f b h = cc

abbrev first_bytes : Run (List (List ℕ × SocketAddr)) → List ℕ
first_bytes (val ((d, a) ∷ xs)) = d
first_bytes (val []) = []
first_bytes panic = []
first_bytes out_of_fuel = []

-- The first item that `iter_from` yields is what `data` reads.
iter_from-payload :
    (b : RecvBatchRaw) (n i : ℕ) (bytes : List ℕ) (a : SocketAddr) (xs : List (List ℕ × SocketAddr))
    → iter_from b n i ≡ val ((bytes, a) ∷ xs)
    → payload b i ≡ val bytes
unfolding iter_from
iter_from-payload b zero i bytes a xs h = cc
iter_from-payload b (suc n) i bytes a xs h =
    let (d, read, h₁) = >>=-val (payload b i) _ _ h in
    let (c, at, h₂) = >>=-val (addr b i) _ _ h₁ in
    let (rest, run, h₃) = >>=-val (iter_from b n (i + 1)) _ _ h₂ in
    read ∙ ap val (ap first_bytes h₃)

-- The batch of one datagram.
abbrev pub outgoing : Slice → SocketAddr → SendBatchRaw
outgoing msg a = (push (Send.with_capacity 1) msg (some a)).1

-- Once its sockets are open the program prints the message; an error ends it.
abbrev pub outcome : List ℕ → IoResult Opened → IoResult Printed
outcome bytes (err x) = err x
outcome bytes (ok sockets) = ok (1, 1, some bytes)

module _ (k : Kernel) (e : Endian) (reactor : Reactor k.World) (recv_fuel : ℕ)
    (read : Slice → List ℕ) (own_addr : SocketAddr) (msg : Slice) where
  open k use {World}

  -- Over a kernel that loses nothing the datagram arrives, whole.
  exchange_lem :
      (t s : BingerUdp) (a : SocketAddr) (w : World)
      → 0 < recv_fuel
      → InRange own_addr
      → length (read msg) ≤ 2048
      → Lossless read e own_addr k s.fd t.fd a w
      → exchange (linux_env k e reactor recv_fuel) 1 msg (t, a, s) w
        ≡ val (ok (1, 1, some (read msg)))
  unfolding exchange push_to Send.new push Send.with_capacity Send.place Typed.new
      Recv.with_capacity iter
  exchange_lem t s a w some_fuel range short lossless =
      let room : Recv.RecvBatchRaw = Recv.with_capacity 1 2048 in
      let fits : length (read msg) ≤ length (Recv.fresh_slot 2048).buf =
        omega (arith, short, length-replicate {A = ℕ} 2048 0) in
      let (s', t', full, v, u, sent, got, items) =
        recv_batch-send_batch k e reactor recv_fuel read own_addr a s t (outgoing msg a) room w
          (record { covered = omega arith; fits = omega arith }) (with_capacity-IsValid 1 2048)
          (omega arith) (omega arith) (omega arith) some_fuel range (refl, tt)
          (fits, omega (arith, short), tt) lossless in
      let bytes = iter_from-payload full full.len 0 (read msg) own_addr [] items in
      rw (sent, got, bytes) refl

  module _ (rt : Runtime World) (bind : World → IoResult Fd × World) (some_fuel : 0 < recv_fuel)
      (range : InRange own_addr) (short : length (read msg) ≤ 2048) where
    after_open_lem :
        (o : IoResult Opened × World)
        → ((t s : BingerUdp) (a : SocketAddr) (v : World)
            → o ≡ (ok (t, a, s), v)
            → Lossless read e own_addr k s.fd t.fd a v)
        → after_open k e reactor recv_fuel rt bind 1 msg o ≡ val (outcome (read msg) o.0)
    after_open_lem (err x, v) lossless = refl
    after_open_lem (ok (t, a, s), v) lossless =
        exchange_lem t s a v some_fuel range short (lossless t s a v refl)

    -- For a message of at most 2048 bytes and a kernel that, once the sockets are open, loses nothing
    -- from the sender to the address of the receiver, the program ends. It returns the error of the
    -- first step of opening the sockets that fails; where none does, it sends one datagram, receives
    -- one, and prints the bytes of the message.
    pub main-Prints :
        (w : World)
        → ((t s : BingerUdp) (a : SocketAddr) (v : World)
            → open_sockets k e rt bind w ≡ (ok (t, a, s), v)
            → Lossless read e own_addr k s.fd t.fd a v)
        → main k e reactor recv_fuel rt bind 1 msg w
          ≡ val (outcome (read msg) (open_sockets k e rt bind w).0)
    unfolding main
    main-Prints w lossless = after_open_lem (open_sockets k e rt bind w) lossless
