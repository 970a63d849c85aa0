-- ===== src/Socket/Drop.antt =====
-- src/socket.rs: `Drop for BingerUdp` and src/sys: `close_fd`, in the build without the feature
-- `tokio`. With it there is no such `Drop`, and the field `tokio_sock` closes the socket.
use binger_udp.Kernel.{Fd}
use binger_udp.Socket.{BingerUdp}

-- `close` is libc's, on the descriptors of the process.
module _ {Table : Type 0} (close : Fd → Table → Table) where
  unfoldable pub close_fd : Fd → Table → Table
  close_fd fd t = close fd t

  unfoldable pub drop_socket : BingerUdp → Table → Table
  unfolding close_fd
  drop_socket s t = close_fd s.fd t
