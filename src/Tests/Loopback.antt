-- ===== src/Tests/Loopback.antt =====
-- Two sockets over a kernel whose world is what is under way between them.
use binger_udp.Base.{ℕ, ltb, ◌≡◌, refl, pos, List, [], ◌∷◌, map, length, val, arith}
use binger_udp.Error.{Errno, ok}
use binger_udp.Net.{SocketAddr, Slice, Endian, ipv4}
use binger_udp.Sockaddr.{zeroed}
use binger_udp.Kernel.{Kernel, Fd, Datagram}
use binger_udp.Batch.Send.{SendBatchRaw, Entry, entries}
use binger_udp.Batch.Send
use binger_udp.Batch.Recv.{RecvBatchRaw, iter, with_capacity}
use binger_udp.Batch.Recv.Slots.{with_capacity-IsValid}
use binger_udp.Socket.{BingerUdp, send_batch, recv_batch}
use binger_udp.Backend.{Reactor, linux_env}
use binger_udp.Backend.Loopback.{Lossless, carried, recv_batch-send_batch}
use binger_udp.Tests.Script.{local_addr, loopback}
use binger_udp.Tests.Batches.{first, slot_of}
use binger_udp.Tests.Sockets.{socket}

abbrev pub sender : SocketAddr
sender = SocketAddr.v4 (ipv4 127 0 0 1) 81

-- Two bytes lie behind every slice.
abbrev pub read : Slice → List ℕ
read bytes = 5 ∷ 6 ∷ []

abbrev pub wire : Kernel
wire = record {
  World = List Datagram;
  last_os_error = λ w. Errno.eagain;
  send = λ fd bytes w. (pos bytes.len, w);
  sendto = λ fd bytes name len w. (pos bytes.len, w);
  recvfrom = λ fd buf w. (record { ret = pos 0; buf = buf; src = zeroed; addr_len = 0 }, w);
  getpeername = λ fd w. (pos 0, w);
  getsockname = λ fd w. (pos 0, loopback, 16, w);
  connect = λ fd name len w. (pos 0, w);
  setsockopt = λ fd level optname value w. (pos 0, w);
  getsockopt = λ fd level optname w. (pos 0, 0, w);
  has_cmsghdr = λ n. ltb 15 n;
  sendmsg = λ fd bytes segment_size w. (pos bytes.len, w);
  sendmmsg = λ fd msgs w. (pos (length msgs), msgs);
  recvmmsg = λ fd bufs w. (pos (length w), carried read Endian.little sender w bufs, []);
}

abbrev pub ready : Reactor (List Datagram)
ready = record {
  writable = λ w. (ok tt, w);
  readable = λ w. (ok tt, w);
  now = λ w. 0;
  later = λ w. 0;
}

pub wire-Lossless :
    (fd fd' : Fd) (receiver : SocketAddr) (w : List Datagram)
    → Lossless read Endian.little sender wire fd fd' receiver w
wire-Lossless fd fd' receiver w = record { carries = λ ds bufs at room. (ds, [], refl, refl) }

-- Two datagrams for the receiver.
abbrev outgoing : SendBatchRaw
outgoing = record {
  slots = record { items = slot_of first ∷ slot_of first ∷ []; cap = 2 };
  len = 2;
}

outgoing-IsValid : Send.IsValid outgoing
outgoing-IsValid = record { covered = omega arith; fits = omega arith }

abbrev peer : BingerUdp
peer = record socket { fd = 4 }

recv_batch-send_batch_example :
    let env = linux_env wire Endian.little ready 1 in
    (s' t' : BingerUdp) × (full : RecvBatchRaw) × (v u : List Datagram) × (send_batch env 1 socket
        outgoing []
      ≡ val (ok 2, s', v))
    × (recv_batch env 1 peer (with_capacity 2 4) v ≡ val (ok 2, full, t', u))
    × (iter full ≡ val (map (λ (x : Entry). (read x.0, sender)) (entries outgoing)))
unfolding with_capacity
recv_batch-send_batch_example =
    recv_batch-send_batch wire Endian.little ready 1 read sender local_addr socket peer outgoing
      (with_capacity 2 4) [] outgoing-IsValid (with_capacity-IsValid 2 4) (omega arith)
      (omega arith) (omega arith) (omega arith)
      (omega arith, omega arith, omega arith, omega arith, omega arith) (refl, (refl, tt))
      (omega arith, omega arith, (omega arith, omega arith, tt)) (wire-Lossless 3 4 local_addr [])
