-- ===== src/Backend/Loopback.antt =====
-- src/socket.rs, src/batch.rs, src/platform/linux.rs and src/sockaddr/unix.rs together: what one
-- socket sends to another over the Linux backend.
use binger_udp.Base.{
  ℕ, suc, ◌%◌, ◌^◌, ◌≤◌, ◌<◌, ◌≡◌, refl, ◌∙◌, ap, sym, inl, inr, some, pos, List, [], ◌∷◌, ◌++◌,
  map, take, drop, length, length-map, length-append, take_all, take-append, val, arith,
}
use mathlib.Core.Option
use mathlib.Core.Path.{ap₂}
use binger_udp.Error.{ok}
use binger_udp.Net.{SocketAddr, Slice, Endian}
use binger_udp.Sockaddr.{encode_sockaddr, decode_sockaddr}
use binger_udp.Sockaddr.RoundTrip.{InRange, decode-encode}
use binger_udp.Kernel.{Kernel, Fd, Datagram, Received}
use binger_udp.Batch.Send.{SendBatchRaw, Entry, entries}
use binger_udp.Batch.Send
use binger_udp.Batch.Send.Refine.{length-entries}
use binger_udp.Batch.Recv.{RecvSlot, RecvBatchRaw, All, iter, datagram}
use binger_udp.Batch.Recv
use binger_udp.Batch.Recv.Client.{iter-datagrams}
use binger_udp.Platform.Loops.Pass.{batch}
use binger_udp.Platform.Linux.Send.Stack.{message}
use binger_udp.Platform.Linux.Send.Heap.{AllTo}
use binger_udp.Platform.Linux.Recv.Plain.{AllPlain, Answers, deliver}
use binger_udp.Socket.{BingerUdp, send_batch, recv_batch}
use binger_udp.Backend.{Reactor, linux_env}
use binger_udp.Backend.Liveness.{Relents, send_batch-Relents}
use binger_udp.Backend.Delivery.{Supplies, recv_batch-Supplies}

-- The bytes behind a slice, in the memory of the sender.
module _ (read : Slice → List ℕ) where
  -- The datagrams come one by one to the buffers, each of which is long enough.
  abbrev pub HasRoom : List Datagram → List (List ℕ) → Type 0
  HasRoom [] bufs = Unit {0}
  HasRoom (d ∷ ds) [] = ⊥
  HasRoom (d ∷ ds) (buf ∷ bufs) =
      (length (read d.iov) ≤ length buf) × (length (read d.iov) < 65536) × HasRoom ds bufs

  module _ (e : Endian) (sender : SocketAddr) where
    -- What the receiver's kernel writes for a datagram.
    abbrev pub written : Datagram → List ℕ → Received
    written d buf = record {
      buf = read d.iov ++ drop (length (read d.iov)) buf;
      msg_len = length (read d.iov);
      src = (encode_sockaddr e sender).0;
      namelen = (encode_sockaddr e sender).1;
      cmsgs = [];
    }

    abbrev pub carried : List Datagram → List (List ℕ) → List Received
    carried [] bufs = []
    carried (d ∷ ds) [] = []
    carried (d ∷ ds) (buf ∷ bufs) = written d buf ∷ carried ds bufs

    module _ (k : Kernel) where
      open k use {World}

      -- Two sockets of the kernel, the one bound to `sender`, the other to `receiver`, with nothing
      -- under way in the world `w`: messages whose names are the receiver's address are all taken,
      -- and the next `recvmmsg` of the other socket writes them, in order and without loss or
      -- coalescing, to buffers that have room.
      pub record Lossless (fd fd' : Fd) (receiver : SocketAddr) (w : World) : Type 0 where
        pub carries :
            (ds : List Datagram) (bufs : List (List ℕ))
            → All (λ (d : Datagram). d.name ≡ some (encode_sockaddr e receiver)) ds
            → HasRoom ds bufs
            → (v : World) × (u : World) × (k.sendmmsg fd ds w ≡ (pos (length ds), v))
              × (k.recvmmsg fd' bufs v ≡ (pos (length ds), carried ds bufs, u))

    length-carried :
        (ds : List Datagram) (bufs : List (List ℕ))
        → HasRoom ds bufs
        → (length (carried ds bufs) ≡ length ds) × (length ds ≤ length bufs)
    length-carried [] bufs h = (refl, omega arith)
    length-carried (d ∷ ds) [] h = absurd h
    length-carried (d ∷ ds) (buf ∷ bufs) h =
        let (same, le) = length-carried ds bufs h.2 in (ap suc same, omega (arith, le))

    carried-AllPlain :
        (ds : List Datagram) (bufs : List (List ℕ)) → HasRoom ds bufs → AllPlain (carried ds bufs)
    carried-AllPlain [] bufs h = tt
    carried-AllPlain (d ∷ ds) [] h = absurd h
    carried-AllPlain (d ∷ ds) (buf ∷ bufs) h = (
      record {
        not_coalesced = refl;
        in_buffer = omega (arith, length-append (read d.iov) (drop (length (read d.iov)) buf));
        short = h.1;
      },
      carried-AllPlain ds bufs h.2,
    )

    -- The receiver reads the bytes that were sent, from the sender.
    carried-bytes :
        (ds : List Datagram) (bufs : List (List ℕ))
        → InRange sender
        → HasRoom ds bufs
        → map {B = List ℕ × SocketAddr}
            (λ (r : Received). (take r.msg_len r.buf, decode_sockaddr e r.src r.namelen))
            (carried ds bufs)
          ≡ map {B = List ℕ × SocketAddr} (λ (d : Datagram). (read d.iov, sender)) ds
    carried-bytes [] bufs range h = refl
    carried-bytes (d ∷ ds) [] range h = absurd h
    carried-bytes (d ∷ ds) (buf ∷ bufs) range h =
        let bytes = read d.iov in
        ap₂ (λ (p : List ℕ × SocketAddr) l. p ∷ l)
          (ap₂ (λ (x : List ℕ) (a : SocketAddr). (x, a))
            (take-append bytes (drop (length bytes) buf) (length bytes) (omega arith)
              ∙ take_all bytes (length bytes) (omega arith))
            (decode-encode e sender range))
          (carried-bytes ds bufs range h.2)

-- Every entry is addressed to the receiver.
abbrev pub AllAt : SocketAddr → List Entry → Type 0
AllAt receiver = All (λ (x : Entry). x.1 ≡ some receiver)

AllAt-AllTo : (receiver : SocketAddr) (xs : List Entry) → AllAt receiver xs → AllTo xs
AllAt-AllTo receiver [] h = tt
AllAt-AllTo receiver ((bytes, a) ∷ xs) h = (rw h.0 refl, AllAt-AllTo receiver xs h.1)

AllAt-names :
    (e : Endian) (receiver : SocketAddr) (xs : List Entry)
    → AllAt receiver xs
    → All (λ (d : Datagram). d.name ≡ some (encode_sockaddr e receiver)) (map (message e) xs)
AllAt-names e receiver [] h = tt
AllAt-names e receiver ((bytes, a) ∷ xs) h =
    (ap (Option.map (encode_sockaddr e)) h.0, AllAt-names e receiver xs h.1)

messages-bytes :
    (read : Slice → List ℕ) (e : Endian) (sender : SocketAddr) (xs : List Entry)
    → map {B = List ℕ × SocketAddr} (λ (d : Datagram). (read d.iov, sender)) (map (message e) xs)
      ≡ map {B = List ℕ × SocketAddr} (λ (x : Entry). (read x.0, sender)) xs
messages-bytes read e sender [] = refl
messages-bytes read e sender (x ∷ xs) =
    ap (λ l. (read x.0, sender) ∷ l) (messages-bytes read e sender xs)

module _ (k : Kernel) (e : Endian) (reactor : Reactor k.World) (recv_fuel : ℕ) where
  -- Once `recvmmsg` fills plain messages, `recv_batch` returns, and the client reads them.
  received-iter :
      (t : BingerUdp) (b : RecvBatchRaw) (rs : List Received) (n : ℕ) (v u : k.World)
      → Recv.IsValid b
      → length b.slots < 2 ^ 32
      → 0 < recv_fuel
      → 0 < n
      → length rs ≡ n
      → length rs ≤ length b.slots
      → AllPlain rs
      → k.recvmmsg t.fd (map (λ s. s.buf) b.slots) v ≡ (pos n, rs, u)
      → (t' : BingerUdp) × (full : RecvBatchRaw) × (recv_batch
            (linux_env k e reactor recv_fuel)
            1
            t
            b
            v
          ≡ val (ok n, full, t', u))
        × (iter full
            ≡ val (
                map {B = List ℕ × SocketAddr}
                  (λ (r : Received). (take r.msg_len r.buf, decode_sockaddr e r.src r.namelen))
                  rs))
  received-iter t b rs n v u valid small some_fuel some_message count fit plain got =
      let announced : take (length b.slots % 2 ^ 32) (map (λ (s : RecvSlot). s.buf) b.slots)
          ≡ map (λ (s : RecvSlot). s.buf) b.slots =
        take_all _ _ (omega (arith, length-map (λ (s : RecvSlot). s.buf) b.slots)) in
      let filled : k.recvmmsg t.fd
            (take (length b.slots % 2 ^ 32) (map (λ (s : RecvSlot). s.buf) b.slots)) v
          ≡ (pos (length rs), rs, u) =
        ap (λ l. k.recvmmsg t.fd l v) announced ∙ got ∙ ap (λ m. (pos m, rs, u)) (sym count) in
      let (t', run, same, read, valid') =
        recv_batch-Supplies k e reactor recv_fuel b (omega (arith, fit, count)) some_fuel valid rs
          fit plain (omega (arith, count)) 1 0 t v u
          (Supplies.fills (Answers.answered filled) some_fuel) (omega arith) in
      (
        t',
        batch (deliver e b.slots rs) (length rs),
        run ∙ ap (λ m. val (ok m, batch (deliver e b.slots rs) (length rs), t', u)) count,
        iter-datagrams (batch (deliver e b.slots rs) (length rs)) valid' ∙ ap val read,
      )

module _ (k : Kernel) (e : Endian) (reactor : Reactor k.World) (recv_fuel : ℕ)
    (read : Slice → List ℕ) (sender receiver : SocketAddr) where
  open k use {World}

  -- Over the Linux backend and a kernel that loses nothing between two sockets: `send_batch` of a
  -- valid and not empty batch, all of whose entries are addressed to the receiver, returns their
  -- number, and then `recv_batch` on a valid batch that has room, both of fewer than 2 ^ 32 entries,
  -- returns the same number. Iterating over the batch yields what was pushed: the bytes of each
  -- entry, in their order, each with the sender's address.
  pub recv_batch-send_batch :
      (s t : BingerUdp) (b : SendBatchRaw) (b' : RecvBatchRaw) (w : World)
      → Send.IsValid b
      → Recv.IsValid b'
      → 0 < b.len
      → b.len < 2 ^ 32
      → length b'.slots < 2 ^ 32
      → 0 < recv_fuel
      → InRange sender
      → AllAt receiver (entries b)
      → HasRoom read (map (message e) (entries b)) (map (λ s. s.buf) b'.slots)
      → Lossless read e sender k s.fd t.fd receiver w
      → let env = linux_env k e reactor recv_fuel in
        (s' t' : BingerUdp) × (full : RecvBatchRaw) × (v u : World) × (send_batch env 1 s b w
          ≡ val (ok b.len, s', v))
        × (recv_batch env 1 t b' v ≡ val (ok b.len, full, t', u))
        × (iter full ≡ val (map (λ (x : Entry). (read x.0, sender)) (entries b)))
  recv_batch-send_batch s t b b' w sv rv some_entry small small' some_fuel range at room lossless =
      let ds = map (message e) (entries b) in
      let bufs = map (λ (s : RecvSlot). s.buf) b'.slots in
      let (v, u, sent, got) =
        lossless.carries ds bufs (AllAt-names e receiver (entries b) at) room in
      let count : length ds ≡ b.len =
        omega (arith, length-map (message e) (entries b), length-entries b sv) in
      let (s', run, kept) =
        send_batch-Relents k e reactor recv_fuel b sv some_entry small
          (inr (inl (AllAt-AllTo receiver (entries b) at))) 1 0 (length ds) s w v
          (Relents.takes sent) (omega arith) in
      let (same, le) = length-carried read e sender ds bufs room in
      let (t', full, run', items) =
        received-iter k e reactor recv_fuel t b' (carried read e sender ds bufs) b.len v u rv small'
          some_fuel some_entry (same ∙ count)
          (omega (arith, same, le, length-map (λ (x : RecvSlot). x.buf) b'.slots))
          (carried-AllPlain read e sender ds bufs room)
          (got ∙ ap (λ m. (pos m, carried read e sender ds bufs, u)) count) in
      (
        s',
        t',
        full,
        v,
        u,
        run ∙ ap (λ m. val (ok m, s', v)) count,
        run',
        items
            ∙ ap val (
                carried-bytes read e sender ds bufs range room
                ∙ messages-bytes read e sender (entries b)),
      )
