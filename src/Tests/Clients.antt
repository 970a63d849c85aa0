-- ===== src/Tests/Clients.antt =====
-- The example programs over the scripted kernel.
use binger_udp.Base.{
  zero, suc, min, length, Run, panic, out_of_fuel, ℕ, ◌≡◌, List, [], ◌∷◌, some, val, arith,
}
use binger_udp.Error.{IoResult, ok, err, IoError, Errno}
use binger_udp.Net.{Slice, Endian, slice}
use binger_udp.Kernel.{Fd, Datagram}
use binger_udp.Socket.Setup.{Runtime, from_std}
use binger_udp.Socket.{Env}
use binger_udp.Socket.Config.{new, with_batch_size, with_send_buf_size}
use binger_udp.Socket.Options
use binger_udp.Raw.{raw_setsockopt, raw_getsockname}
use binger_udp.Batch.Send.{SendBatchRaw}
use binger_udp.Batch.Recv.{RecvBatchRaw}
use binger_udp.Batch.Recv
use binger_udp.Socket.Contract.{Contract}
use binger_udp.Examples.Select.{main}
use binger_udp.Examples.ConfigBuilder.{open_sockets, config}
use binger_udp.Examples.ConfigBuilder
use binger_udp.Examples.ConfigBuilder.Prints.{main-Prints}
use binger_udp.Tests.Loopback.{read, sender, wire, ready, wire-Lossless}
use binger_udp.Tests.Script.{local_addr}
use binger_udp.Tests.Sockets.{env}

-- A platform that would block until a wait has succeeded, which allows one more call; a reception
-- then fills one slot, if there is one.
abbrev send_one : SendBatchRaw → ℕ → Run (IoResult ℕ × ℕ)
send_one b zero = val (err (IoError.os Errno.eagain), 0)
send_one b (suc n) = val (ok b.len, n)

abbrev recv_one : RecvBatchRaw → ℕ → Run (IoResult ℕ × RecvBatchRaw × ℕ)
recv_one b zero = val (err (IoError.os Errno.eagain), b, 0)
recv_one b (suc n) = val (ok (min 1 (length b.slots)), record b { len = min 1 (length b.slots) }, n)

abbrev waiting : Env
waiting = record env {
  platform_send = λ fd b w. send_one b w;
  platform_recv = λ fd b w. recv_one b w;
}

abbrev counted : Run (IoResult ℕ × RecvBatchRaw × ℕ) → IoResult ℕ
counted (val (r, b, w)) = r
counted panic = ok 1
counted out_of_fuel = ok 1

-- The string of index `i` in a round is three bytes in memory.
abbrev msg : ℕ → ℕ → Slice
msg iteration i = slice i 3

abbrev small_runtime : Runtime (List Datagram)
small_runtime = record {
  set_nonblocking = λ fd on w. (ok tt, w);
  tokio_from_std = λ fd w. (ok tt, w);
  now = λ w. 0;
  later = λ w. 0;
}

-- Every socket that std binds is number 3.
abbrev bind : List Datagram → IoResult Fd × List Datagram
bind w = (ok 3, w)

main-Prints_example :
    ConfigBuilder.main wire Endian.little ready 1 small_runtime bind 1 (slice 8 19) []
    ≡ val (ok (1, 1, some (5 ∷ 6 ∷ [])))
unfolding open_sockets from_std config with_send_buf_size with_batch_size new Options.local_addr
    raw_setsockopt raw_getsockname
main-Prints_example =
    main-Prints wire Endian.little ready 1 read sender (slice 8 19) small_runtime bind (omega arith)
      (omega arith, omega arith, omega arith, omega arith, omega arith) (omega arith) []
      (λ t s a v opened. wire-Lossless s.fd t.fd a v)
