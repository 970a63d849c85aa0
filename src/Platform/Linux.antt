-- ===== src/Platform/Linux.antt =====
-- src/platform/linux.rs: the backend over `sendmmsg` and `recvmmsg`.
pub mod Send
pub mod Recv
