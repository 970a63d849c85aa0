-- ===== src/Platform/Macos.antt =====
-- src/platform/macos.rs: the backend over `sendmsg_x` and `recvmsg_x`, which are looked up at run
-- time. The vectors that it prepares for sending are those of the heap path of
-- src/platform/linux.rs, statement by statement.
pub mod Sending
pub mod Receiving
pub mod Symbols
use binger_udp.Base.{
  ℕ, zero, suc, ◌+◌, ◌%◌, ◌^◌, ℤ, pos, negsuc, Bool, true, false, Option, none, some, List, [], ◌∷◌,
  map, take, ◌==◌, if◌then◌else◌, Run, ◌>>=◌, val, out_of_fuel,
}
use binger_udp.Error.{IoError, IoResult, ok, err, is_interrupted}
use binger_udp.Net.{Endian}
use binger_udp.Sockaddr.{decode_sockaddr}
use binger_udp.Kernel.{Kernel, Fd, Datagram, Received}
use binger_udp.Raw.{raw_recvfrom, is_connected, last}
use binger_udp.Batch.Send.{SendBatchRaw}
use binger_udp.Batch.Send
use binger_udp.Batch.Recv.{RecvBatchRaw, set_recv_len, write_addr, set_len, capacity}
use binger_udp.Platform.Loops.{send_loop, send_entry, recv_loop}
use binger_udp.Platform.Linux.Send.{heap_datagrams}
use binger_udp.Platform.Linux.Recv.{fill}

-- `resolve_symbol`: the address that the lock holds afterwards, and the symbol unless it is null.
-- The lock is filled by the first call, which asks `dlsym`.
unfoldable pub resolve_symbol : {W : Type 0} → (W → ℕ × W) → Option ℕ → W → Option ℕ × Option ℕ × W
resolve_symbol dlsym none w =
    let (addr, w') = dlsym w in (if addr == 0 then none else some addr, some addr, w')
resolve_symbol dlsym (some addr) w = (if addr == 0 then none else some addr, some addr, w)

-- The two private calls of the system, where `dlsym` finds them. A received message has no control
-- messages; its `msg_len` is `msg_datalen`.
pub record Extended (k : Kernel) : Type 0 where
  pub sendmsg_x : Option (Fd → List Datagram → k.World → ℤ × k.World)
  pub recvmsg_x : Option (Fd → List (List ℕ) → k.World → ℤ × List Received × k.World)

module _ (k : Kernel) (e : Endian) where
  open k use {World}

  abbrev pub after_call :
      {A : Type 0}
      → ℤ × A × World
      → (World → Run (IoResult (ℕ × A) × World))
      → Run (IoResult (ℕ × A) × World)
  after_call (pos n, a, w) again = val (ok (n, a), w)
  after_call (negsuc n, a, w) again =
      let x = last k e w in if is_interrupted x then again w else val (err x, w)

  -- For at most `fuel` calls. `A` is what the call writes beside its return value.
  unfoldable pub retry_eintr :
      {A : Type 0} → ℕ → (World → ℤ × A × World) → World → Run (IoResult (ℕ × A) × World)
  retry_eintr zero call w = out_of_fuel
  retry_eintr (suc fuel) call w = after_call (call w) (retry_eintr fuel call)

  -- `retry_eintr(…)?; return Ok(sent as usize)`
  abbrev pub sent_result : {A : Type 0} → IoResult (ℕ × A) → IoResult ℕ
  sent_result (ok (n, _)) = ok n
  sent_result (err x) = err x

  abbrev pub no_output : ℤ × World → ℤ × Unit {0} × World
  no_output (ret, w) = (ret, tt, w)

  -- `if let Some(sendmsg_x) = sendmsg_x_fn()`, else the loop of single calls.
  unfoldable pub send_messages :
      Extended k → ℕ → Fd → SendBatchRaw → List Datagram → World → Run (IoResult ℕ × World)
  unfolding retry_eintr
  send_messages x fuel fd b ds w = elim x.sendmsg_x [
    | some call ↦
        (retry_eintr fuel (λ w'. no_output (call fd (take (Send.len b % 2 ^ 32) ds) w')) w
          >>= λ (r, w'). val (sent_result r, w'))
    | none ↦ send_loop (send_entry k e fd false) b (Send.len b) 0 0 w
  ]

  abbrev pub after_connected :
      Bool → Extended k → ℕ → Fd → SendBatchRaw → World → Run (IoResult ℕ × World)
  after_connected true x fuel fd b w = send_loop (send_entry k e fd true) b (Send.len b) 0 0 w
  after_connected false x fuel fd b w =
      (heap_datagrams e b >>= λ ds. send_messages x fuel fd b ds w)

  unfoldable pub try_send_batch :
      Extended k → ℕ → Fd → SendBatchRaw → World → Run (IoResult ℕ × World)
  unfolding send_messages
  try_send_batch x fuel fd b w =
      if Send.len b == 0
      then val (ok 0, w)
      else let (connected, w') = is_connected k e fd w in after_connected connected x fuel fd b w'

  -- `for i in 0..n`, from index `i` on.
  unfoldable pub on_messages : List Received → ℕ → RecvBatchRaw → Run RecvBatchRaw
  on_messages [] i b = val b
  on_messages (r ∷ rs) i b = do
    b₁ ← set_recv_len b i r.msg_len
    b₂ ← write_addr b₁ i (decode_sockaddr e r.src r.namelen)
    on_messages rs (i + 1) b₂

  abbrev pub after_recvmsg_x :
      IoResult (ℕ × List Received) × World → RecvBatchRaw → Run (IoResult ℕ × RecvBatchRaw × World)
  after_recvmsg_x (ok (n, rs), w) b = do
    b' ← on_messages (take n rs) 0 (record b { slots = fill b.slots (take n rs) })
    val (ok n, set_len b' n, w)
  after_recvmsg_x (err x, w) b = val (err x, b, w)

  unfoldable pub try_recv_batch :
      Extended k → ℕ → Fd → RecvBatchRaw → World → Run (IoResult ℕ × RecvBatchRaw × World)
  unfolding retry_eintr on_messages
  try_recv_batch x fuel fd b w = if capacity b == 0 then val (ok 0, b, w) else elim x.recvmsg_x [
    | some call ↦
        (retry_eintr fuel (call fd (take (capacity b % 2 ^ 32) (map (λ s. s.buf) b.slots))) w
          >>= λ answer. after_recvmsg_x answer b)
    | none ↦ recv_loop (raw_recvfrom k e fd) (capacity b) 0 0 b w
  ]
