-- ===== src/Kernel.antt =====
-- The system calls that the library makes through the libc crate: what it does not implement. A
-- call reads and changes a world of its own; a negative return announces an error, which
-- `last_os_error` then reads from the world.
use binger_udp.Base.{Bool, ℕ, ℤ, List, Option}
use binger_udp.Error.{Errno}
use binger_udp.Net.{Slice}
use binger_udp.Sockaddr.{Storage}

-- src/sys/unix.rs: `Fd`.
abbrev pub Fd : Type 0
Fd = ℕ

-- The levels and names of the socket options that the library uses.
pub data Level : Type 0 where
  sol_socket ipproto_ip ipproto_ipv6 ipproto_udp : Level

pub data OptName : Type 0 where
  so_sndbuf so_rcvbuf ip_ttl udp_segment udp_gro so_max_pacing_rate : OptName
  so_busy_poll so_timestampns ip_pktinfo ipv6_recvpktinfo : OptName

-- A message handed to `sendmmsg` and its like: the address that `msg_name` points at with
-- `msg_namelen`, if it is not null, and the bytes of its one `iovec`.
pub record Datagram : Type 0 where
  pub name : Option (Storage × ℕ)
  pub iov : Slice

-- What `recvfrom` returns and writes: the buffer afterwards, the address and its length.
pub record Recvfrom : Type 0 where
  pub ret : ℤ
  pub buf : List ℕ
  pub src : Storage
  pub addr_len : ℕ

-- A control message, by the C structure that the library reads out of `CMSG_DATA`.
pub data Cmsg : Type 0 where
  udp_gro : (segment_size : ℕ) → Cmsg
  timestampns : (tv_sec tv_nsec : ℕ) → Cmsg
  in_pktinfo : (ipi_addr : ℕ) → Cmsg
  in6_pktinfo : (ipi6_addr : List ℕ) → Cmsg
  unknown : Cmsg

-- What `recvmmsg` writes for one message: its buffer afterwards, `msg_len`, the address with
-- `msg_namelen`, and the control messages in the order of `CMSG_FIRSTHDR` and `CMSG_NXTHDR`.
pub record Received : Type 0 where
  pub buf : List ℕ
  pub msg_len : ℕ
  pub src : Storage
  pub namelen : ℕ
  pub cmsgs : List Cmsg

-- `sendmsg` takes the segment size of a UDP_SEGMENT control message, if there is one; `has_cmsghdr`
-- says whether a control buffer of that many bytes has a first header.
pub record Kernel : Type 1 where
  pub has_cmsghdr : ℕ → Bool
  pub World : Type 0
  pub last_os_error : World → Errno
  pub send : Fd → Slice → World → ℤ × World
  pub sendto : Fd → Slice → Storage → ℕ → World → ℤ × World
  pub recvfrom : Fd → List ℕ → World → Recvfrom × World
  pub getpeername : Fd → World → ℤ × World
  pub getsockname : Fd → World → ℤ × Storage × ℕ × World
  pub connect : Fd → Storage → ℕ → World → ℤ × World
  pub setsockopt : Fd → Level → OptName → ℕ → World → ℤ × World
  pub getsockopt : Fd → Level → OptName → World → ℤ × ℕ × World
  pub sendmsg : Fd → Slice → Option ℕ → World → ℤ × World
  pub sendmmsg : Fd → List Datagram → World → ℤ × World
  pub recvmmsg : Fd → List (List ℕ) → World → ℤ × List Received × World
