-- ===== src/Batch.antt =====
-- src/batch.rs: the containers of outgoing and of received datagrams.
pub mod Send
pub mod Recv
pub mod Typed
