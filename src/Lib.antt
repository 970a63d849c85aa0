-- ===== src/Lib.antt =====
-- binger-udp: batches of UDP datagrams over the fastest system call of each platform.
--
-- The program. A client configures and opens a socket (src/socket.rs), fills a send batch
-- (src/batch.rs) or hands over a receive batch; the socket passes it to the backend of the
-- platform (src/platform), which translates addresses (src/sockaddr/unix.rs) and makes the system
-- calls; the socket retries what would block, counts in its metrics (src/metrics.rs) and adapts a
-- recommended batch size. A client may keep its buffers in a pool (src/bufs.rs).
--
-- The files.
--   Base        numbers, lists, runs (`val`, `panic`, `out_of_fuel`) and vectors with a capacity.
--   Error       src/error.rs and the kinds of `std::io::Error` that the library looks at.
--   Net         socket addresses, slices (a pointer and a length) and words in either byte order.
--   Sockaddr    src/sockaddr/unix.rs: `encode_sockaddr`, `decode_sockaddr`.
--   Kernel      the system calls, a parameter of everything that makes them.
--   Raw         src/sockaddr/unix.rs: the `raw_` wrappers and `is_connected`.
--   Batch       src/batch.rs: `SendSlot`, `SendBatchRaw`, `SendBatch` in Batch.Send; `RecvSlot`,
--               `RecvBatchRaw`, `Timestamp` in Batch.Recv, where `data` is named `payload`;
--               `RecvBatch` and `Timestamp::as_duration` in Batch.Typed.
--   Winsock     src/sockaddr/windows_impl.rs: the same wrappers on Windows.
--   Bufs        src/bufs.rs: `BufferPool` over queues and buffers of other crates.
--   Platform    src/platform: the loops of single calls in Platform.Loops; src/platform/fallback.rs
--               in Platform.Fallback; src/platform/linux.rs in Platform.Linux, the `sendmmsg` path in
--               Platform.Linux.Send and the `recvmmsg` path in Platform.Linux.Recv;
--               src/platform/macos.rs in Platform.Macos, src/platform/windows.rs in
--               Platform.Windows.
--   Adaptive    src/socket.rs: `AdaptiveState`; its `f64` tests are computed exactly.
--   Metrics     src/metrics.rs: `BingerMetrics`, `MetricsSnapshot`.
--   Socket      src/socket.rs: `BingerUdp` and its batch and single-datagram operations, over an
--               `Env` of a platform, a reactor and a clock; `Config` in Socket.Config, `from_std` in
--               Socket.Setup, the socket options in Socket.Options, `PlatformCaps` in
--               Socket.Capabilities, `send_gso` in Socket.Gso, `Drop` in Socket.Drop. What the socket
--               relies on of a backend is the record `Contract` of Socket.Contract, and the modules
--               below it are about any backend that keeps it; Socket.WithoutTokio is the build
--               without tokio, and Socket.Threads a socket that threads share.
--   Backend     src/platform/mod.rs: the `Env` of each backend over a kernel and which of them is
--               compiled in; Backend.Contract is about the contract and what the backends rely on,
--               and Backend.Loopback about one socket that sends to another.
--   Examples    examples/select.rs in Examples.Select and examples/config_builder.rs in
--               Examples.ConfigBuilder: clients of the socket and the batches.
--   Tests       a scripted kernel, runs on concrete batches, and the theorems applied to them.
--
-- How it is modelled. A call that panics returns `panic`; the state that a call changes is passed
-- on explicitly, and the world of the kernel with it. A `for` loop over indices is recursion on
-- the rounds left. `send_batch`, `recv_batch`, `send_gso` and `retry_eintr` wait for the outside,
-- so they run on fuel, one unit for each attempt: any fuel above the number of attempts that block
-- or are interrupted is enough. The split of a coalesced datagram has one unit of fuel for each
-- byte and one more, since each round consumes a byte. Counters wrap at 2 ^ 64 as in a release
-- build. The kernel's contract for `recvfrom` is the hypothesis `RecvfromLaw`; that of `recvmmsg`
-- is in `Plain`, that of `recvmsg_x` in `IsProper`; `LinuxLaw` and `MacosLaw` put together what a
-- backend relies on; the contract of the Linux backend is also under `WithoutGro`, that UDP_GRO is
-- set on no socket. The calls that a system may lack, `sendmsg_x`,
-- `recvmsg_x` and `WSARecvMsg`, are optional parameters. The shared queue of a pool lies in a
-- memory that its clones point to; each call on it is one step, as the queue is lock-free.
--
-- Threads that share a socket. `BingerUdp` is `Sync`: each counter is one atomic number, and each
-- adaptive state lies behind a mutex. Socket.Threads takes an increment, or what is done under the
-- lock, as one step of a thread (`Effect`); `effects` lists those of a round of an operation in
-- program order, and `Steps` interleaves the threads in any way. Every access to a counter is a
-- `fetch_add`, so what is said of each counter by itself does not depend on the relaxed ordering of
-- different counters; nothing is said of two counters at one moment.
--
-- Not modelled: the contents of the memory behind a send slot, which is a pointer and a length, as
-- in the source; the layout and alignment of the C structures, of which the fields are kept;
-- how loads of different counters are ordered by the hardware, since they are relaxed, and a `reset`
-- while threads count; that a wait may never return (`wait_writable`, `wait_readable`); the rest of
-- src/sys, which is constants; `readable` and `writable`, which tokio answers; what the
-- examples print, save the datagram in Examples.ConfigBuilder.
pub mod Base
pub mod Error
pub mod Net
pub mod Sockaddr
pub mod Kernel
pub mod Raw
pub mod Winsock
pub mod Bufs
pub mod Batch
pub mod Platform
pub mod Adaptive
pub mod Metrics
pub mod Socket
pub mod Backend
pub mod Examples
mod Tests
