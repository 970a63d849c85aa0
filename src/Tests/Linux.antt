-- ===== src/Tests/Linux.antt =====
-- The Linux backend over scripted kernels.
use mathlib.Core.Logic.{inl}
use binger_udp.Base.{
  ℕ, length, ◌+◌, ◌%◌, zero, suc, pos, negsuc, ◌≡◌, refl, some, List, [], ◌∷◌, map, take, replicate,
  get_elem?, val, panic, ◌>>=◌, arith,
}
use binger_udp.Error.{Errno, IoResult, ok, is_interrupted}
use binger_udp.Net.{Endian, slice, u16_be, u32_be}
use binger_udp.Sockaddr.{zeroed, encode_sockaddr, decode_sockaddr, ipv4_from_u32}
use binger_udp.Kernel.{Kernel, Cmsg, Received, Datagram}
use binger_udp.Batch.Send.{SendSlot, SendBatchRaw, Entry, entries}
use binger_udp.Batch.Send
use binger_udp.Batch.Recv.{RecvSlot, RecvBatchRaw, datagram, fresh_slot, iter, with_capacity}
use binger_udp.Batch.Recv
use binger_udp.Platform.Loops.Pass.{batch}
use binger_udp.Platform.Linux.Send.{try_send_batch, datagrams}
use binger_udp.Platform.Linux.Send.Heap.{datagrams-misrouted}
use binger_udp.Platform.Linux.Send.Answered.{Answered, try_send_batch-Answered}
use binger_udp.Platform.Linux.Recv.{try_recv_batch, on_messages}
use binger_udp.Platform.Linux.Recv.Lost.{on_messages-lost}
use binger_udp.Platform.Linux.Recv.Overflow.{try_recv_batch-panics}
use binger_udp.Platform.Linux.Recv.Plain.{Plain, Answers, deliver, received, try_recv_batch-plain}
use binger_udp.Platform.Linux.Recv.Split.{spread}
use binger_udp.Platform.Linux.Recv.Gro.{segments}
use binger_udp.Platform.Linux.Recv.Last.{try_recv_batch-last}
use binger_udp.Platform.Linux.Recv.Chunks.{concat}
use binger_udp.Tests.Script.{script, loopback, local_addr}
use binger_udp.Tests.Batches.{
  slot_of, first, second, two_waiting, two_waiting-IsValid, one_received, one_received-IsValid,
}

try_send_batch-Answered_example :
    (r : IoResult ℕ) × (u : ℕ) × (try_send_batch script Endian.little 3 two_waiting 1 ≡ val (r, u))
    × Answered script Endian.little 3 two_waiting 1 r u
try_send_batch-Answered_example =
    try_send_batch-Answered script Endian.little 3 two_waiting 1 two_waiting-IsValid (omega arith)
      (omega arith) (inl (omega arith))

-- A batch for the heap path: one datagram without an address, and then 64 with one.
abbrev mixed : SendBatchRaw
mixed = record {
  slots = record { items = slot_of second ∷ replicate 64 (slot_of first); cap = 65 };
  len = 65;
}

mixed-IsValid : Send.IsValid mixed
mixed-IsValid = record { covered = omega arith; fits = omega arith }

datagrams-misrouted_example :
    (ds : List Datagram) × (datagrams Endian.little mixed ≡ val ds)
    × (get_elem? ds 1
        ≡ some (record {
          name = some (zeroed, (encode_sockaddr Endian.little local_addr).1);
          iov = slice 100 3;
        }))
datagrams-misrouted_example =
    datagrams-misrouted Endian.little mixed (slice 200 5) (slice 100 3) local_addr
      (replicate 63 first) mixed-IsValid (omega arith) refl

abbrev pub ping : Received
ping = record {
  buf = 112 ∷ 105 ∷ 0 ∷ 0 ∷ [];
  msg_len = 2;
  src = loopback;
  namelen = 16;
  cmsgs = Cmsg.timestampns 9 8 ∷ Cmsg.unknown ∷ [];
}

pub ping-Plain : Plain ping
ping-Plain = record { not_coalesced = refl; in_buffer = omega arith; short = omega arith }

-- The first call is interrupted, the second delivers one datagram.
abbrev pinged : Kernel
pinged = record script {
  last_os_error = λ w. Errno.eintr;
  recvmmsg = λ fd bufs w. elim w [ zero ↦ (pos 1, ping ∷ [], 0) | suc n ↦ (negsuc 3, [], n) ];
}

try_recv_batch-plain_example :
    let b' = batch (deliver Endian.little one_received.slots (ping ∷ [])) 1 in
    (try_recv_batch pinged Endian.little 2 3 one_received 1 ≡ val (ok 1, b', 0))
    × (map datagram (take 1 b'.slots)
        ≡ (take 2 (112 ∷ 105 ∷ 0 ∷ 0 ∷ []), decode_sockaddr Endian.little loopback 16) ∷ [])
    × Recv.IsValid b'
unfolding is_interrupted
try_recv_batch-plain_example =
    try_recv_batch-plain pinged Endian.little 2 1 3 one_received (ping ∷ []) 1 0
      one_received-IsValid (omega arith) (Answers.interrupted refl refl (Answers.answered refl))
      (omega arith) (omega arith) (ping-Plain, tt)

-- Four bytes coalesced from two datagrams, and then one more datagram.
abbrev coalesced : Received
coalesced = record {
  buf = 1 ∷ 2 ∷ 3 ∷ 4 ∷ [];
  msg_len = 4;
  src = loopback;
  namelen = 16;
  cmsgs = Cmsg.udp_gro 2 ∷ [];
}

abbrev gro : Kernel
gro = record script { recvmmsg = λ fd bufs w. (pos 2, coalesced ∷ ping ∷ [], w) }

-- Three datagrams are reported; the bytes of the third are lost, for the slot that the second
-- segment was copied to was the third's.
gro_loses_a_datagram :
    (try_recv_batch gro Endian.little 1 3 (with_capacity 4 4) 0 >>= λ (r, b, w). iter b)
    ≡ val ((1 ∷ 2 ∷ [], local_addr) ∷ (3 ∷ 4 ∷ [], local_addr) ∷ (0 ∷ 0 ∷ [], local_addr) ∷ [])
unfolding try_recv_batch Recv.capacity with_capacity Recv.set_recv_len Recv.write_addr
    Recv.buffer_mut Recv.write_buf Recv.timestamp Recv.set_timestamp Recv.dst_addr Recv.set_dst_addr
    iter Recv.set_len decode_sockaddr ipv4_from_u32 u16_be u32_be
gro_loses_a_datagram = refl

-- The same messages, the coalesced one last: nothing is lost.
abbrev gro_last : Kernel
gro_last = record script { recvmmsg = λ fd bufs w. (pos 2, ping ∷ coalesced ∷ [], w) }

try_recv_batch-last_example :
    let slots =
      received Endian.little (fresh_slot 4) ping
      ∷ spread
          (received Endian.little (fresh_slot 4) coalesced)
          (decode_sockaddr Endian.little loopback 16)
          (segments coalesced 1)
          (fresh_slot 4 ∷ []) in
    let n = 1 + length (segments coalesced 1) in
    (try_recv_batch gro_last Endian.little 1 3
        (batch (fresh_slot 4 ∷ fresh_slot 4 ∷ fresh_slot 4 ∷ []) 0)
        0
      ≡ val (ok n, batch slots n, 0))
    × (map datagram (take n slots)
        ≡ (take 2 (112 ∷ 105 ∷ 0 ∷ 0 ∷ []), decode_sockaddr Endian.little loopback 16)
          ∷ map (λ x. (x, decode_sockaddr Endian.little loopback 16)) (segments coalesced 1))
    × (concat (segments coalesced 1) ≡ take 4 (1 ∷ 2 ∷ 3 ∷ 4 ∷ []))
try_recv_batch-last_example =
    try_recv_batch-last gro_last Endian.little (ping ∷ []) coalesced 1 0 (fresh_slot 4 ∷ [])
      (fresh_slot 4) (fresh_slot 4 ∷ []) 1 0 3 0 0 (Answers.answered refl) (omega arith) refl
      (ping-Plain, tt) refl (omega arith) (omega arith) (omega arith) (omega arith, tt)
      (omega arith)

-- The coalesced datagram in the first of three slots, and another in the second.
on_messages-lost_example :
    (old now : RecvSlot) × (b : RecvBatchRaw) × (get_elem?
        (fresh_slot 4 ∷ fresh_slot 4 ∷ fresh_slot 4 ∷ [])
        (length (segments coalesced 1))
      ≡ some old)
    × (on_messages script Endian.little (coalesced ∷ ping ∷ []) 0 (
          batch
            (record (fresh_slot 4) { buf = coalesced.buf }
              ∷ record (fresh_slot 4) { buf = ping.buf }
              ∷ fresh_slot 4
              ∷ [])
            0)
        ≡ val (length (segments coalesced 1) + 1, b))
    × (get_elem? b.slots (length (segments coalesced 1)) ≡ some now)
    × (datagram now ≡ (take (2 % 65536) old.buf, decode_sockaddr Endian.little loopback 16))
on_messages-lost_example =
    on_messages-lost script Endian.little coalesced ping 1 0 (fresh_slot 4) (fresh_slot 4)
      (fresh_slot 4 ∷ []) refl (omega arith) (omega arith) (omega arith) refl
      (omega arith, (omega arith, tt)) (omega arith) (omega arith)

-- Two slots, which the coalesced datagrams fill, and one more datagram.
try_recv_batch-panics_example :
    try_recv_batch gro Endian.little 1 3 (batch (fresh_slot 4 ∷ fresh_slot 4 ∷ []) 0) 0 ≡ panic
try_recv_batch-panics_example =
    try_recv_batch-panics gro Endian.little 1 0 1 0 3 (fresh_slot 4) (fresh_slot 4 ∷ []) coalesced
      ping [] 0 0 (Answers.answered refl) (omega arith) refl (omega arith) (omega arith)
      (omega arith) (omega arith, tt) refl
