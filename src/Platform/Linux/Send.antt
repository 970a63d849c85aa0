-- ===== src/Platform/Linux/Send.antt =====
-- src/platform/linux.rs: `try_send_batch` and `fallback_send`. A pointer into the array `addrs` is
-- its index there; the kernel reads through the pointers when `sendmmsg` is called.
pub mod Stack
pub mod Heap
pub mod Answered
use mathlib.Core.Option
use binger_udp.Base.{
  ℕ, zero, suc, ◌+◌, ◌%◌, ◌^◌, ℤ, pos, negsuc, Bool, true, false, Option, none, some, List, [], ◌∷◌,
  map, take, set, get_elem?, length, replicate, ◌==◌, leb, if◌then◌else◌, Run, ◌>>=◌, val, or_panic,
}
use binger_udp.Error.{IoError, IoResult, ok, err, is_enosys}
use binger_udp.Net.{SocketAddr, Slice, Endian}
use binger_udp.Sockaddr.{Storage, zeroed, encode_sockaddr}
use binger_udp.Kernel.{Kernel, Fd, Datagram}
use binger_udp.Raw.{is_connected, last}
use binger_udp.Batch.Send.{SendBatchRaw, entry, len}
use binger_udp.Platform.Loops.{send_loop, send_entry}

abbrev pub max_stack : ℕ
max_stack = 64

-- `msghdr` with its one `iovec`: where in `addrs` the name lies, and its length.
pub record Header : Type 0 where
  pub name : Option (ℕ × ℕ)
  pub iov : Slice

abbrev pub get_or {ℓ} : {A : Type ℓ} → Option A → A → A
get_or none d = d
get_or (some a) d = a

-- What the kernel reads through a header.
abbrev pub wire : List Storage → Header → Datagram
wire addrs h = record {
  name = Option.map (λ (i, n). (get_or (get_elem? addrs i) zeroed, n)) h.name;
  iov = h.iov;
}

module _ (e : Endian) where
  -- `if let Some(target) = addr`: the name, the next `addr_idx` and the array.
  abbrev pub put_name : Option SocketAddr → ℕ → List Storage → Option (ℕ × ℕ) × ℕ × List Storage
  put_name none addr_idx addrs = (none, addr_idx, addrs)
  put_name (some target) addr_idx addrs =
      let (storage, addr_len) = encode_sockaddr e target in
      (some (addr_idx, addr_len), addr_idx + 1, set addrs addr_idx storage)

  -- The arrays on the stack, filled from index `i` on, `n` rounds left.
  unfoldable pub prepare_stack :
      SendBatchRaw → ℕ → ℕ → ℕ → List Storage → Run (List Storage × List Header)
  prepare_stack b zero i addr_idx addrs = val (addrs, [])
  prepare_stack b (suc n) i addr_idx addrs = do
    (bytes, addr) ← entry b i
    let (name, addr_idx', addrs') = put_name addr addr_idx addrs
    (out, msgs) ← prepare_stack b n (i + 1) addr_idx' addrs'
    val (out, record { name = name; iov = bytes } ∷ msgs)

  -- The storage of an entry and its `msg_namelen` on the heap path; its `msg_name` is set later.
  abbrev pub heap_storage : Option SocketAddr → Storage × ℕ
  heap_storage none = (zeroed, 0)
  heap_storage (some target) = encode_sockaddr e target

  -- The first loop of the heap path: one storage pushed for each entry, with the length of its
  -- name and its bytes.
  unfoldable pub prepare_heap : SendBatchRaw → ℕ → ℕ → Run (List Storage × List (ℕ × Slice))
  prepare_heap b zero i = val ([], [])
  prepare_heap b (suc n) i = do
    (bytes, addr) ← entry b i
    let (storage, addr_len) = heap_storage addr
    (addrs, drafts) ← prepare_heap b n (i + 1)
    val (storage ∷ addrs, (addr_len, bytes) ∷ drafts)

  -- `if addr.is_some()`: the name and the next `addr_idx`.
  abbrev pub link_name : Option SocketAddr → ℕ → ℕ → Option (ℕ × ℕ) × ℕ
  link_name none addr_len addr_idx = (none, addr_idx)
  link_name (some target) addr_len addr_idx = (some (addr_idx, addr_len), addr_idx + 1)

  -- The second loop of the heap path, which sets the names.
  unfoldable pub link_heap : SendBatchRaw → List (ℕ × Slice) → ℕ → ℕ → Run (List Header)
  link_heap b [] i addr_idx = val []
  link_heap b ((addr_len, bytes) ∷ drafts) i addr_idx = do
    (_, addr) ← entry b i
    let (name, addr_idx') = link_name addr addr_len addr_idx
    msgs ← link_heap b drafts (i + 1) addr_idx'
    val (record { name = name; iov = bytes } ∷ msgs)

  -- The datagrams that each path hands to `sendmmsg`.
  unfoldable pub stack_datagrams : SendBatchRaw → Run (List Datagram)
  unfolding prepare_stack
  stack_datagrams b = do
    (addrs, msgs) ← prepare_stack b b.len 0 0 (replicate max_stack zeroed)
    val (map (wire addrs) msgs)

  unfoldable pub heap_datagrams : SendBatchRaw → Run (List Datagram)
  unfolding prepare_heap link_heap
  heap_datagrams b = do
    (addrs, drafts) ← prepare_heap b b.len 0
    msgs ← link_heap b drafts 0 0
    val (map (wire addrs) msgs)

  unfoldable pub datagrams : SendBatchRaw → Run (List Datagram)
  unfolding stack_datagrams heap_datagrams
  datagrams b = if leb b.len max_stack then stack_datagrams b else heap_datagrams b

module _ (k : Kernel) (e : Endian) where
  open k use {World}

  unfoldable pub fallback_send : Fd → SendBatchRaw → World → Run (IoResult ℕ × World)
  fallback_send fd b w =
      if len b == 0
      then val (ok 0, w)
      else let (connected, w') = is_connected k e fd w in
        send_loop (send_entry k e fd connected) b (len b) 0 0 w'

  abbrev pub on_sendmmsg_error :
      Bool → IoError → Fd → SendBatchRaw → World → Run (IoResult ℕ × World)
  on_sendmmsg_error true x fd b w = fallback_send fd b w
  on_sendmmsg_error false x fd b w = val (err x, w)

  abbrev pub after_sendmmsg : ℤ × World → Fd → SendBatchRaw → Run (IoResult ℕ × World)
  after_sendmmsg (pos sent, w) fd b = val (ok sent, w)
  after_sendmmsg (negsuc n, w) fd b = let x = last k e w in on_sendmmsg_error (is_enosys x) x fd b w

  -- `len as u32` messages are announced to the kernel.
  unfoldable pub try_send_batch : Fd → SendBatchRaw → World → Run (IoResult ℕ × World)
  unfolding datagrams fallback_send
  try_send_batch fd b w =
      if len b == 0
      then val (ok 0, w)
      else (datagrams e b >>= λ ds.
          after_sendmmsg (k.sendmmsg fd (take (len b % 2 ^ 32) ds) w) fd b)
