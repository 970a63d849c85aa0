-- ===== src/Tests.antt =====
-- The theorems at work on concrete batches, sockets and kernels.
pub mod Script
mod Batches
mod Codec
mod Fallbacks
mod Sockets
mod Sizes
mod Linux
mod Pool
mod Platforms
mod Life
mod Threads
mod Contracts
mod Loopback
mod Clients
