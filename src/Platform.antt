-- ===== src/Platform.antt =====
-- src/platform: the backends. `Loops` holds the packet-by-packet loops that several backends
-- contain, one module for each direction with its proofs below it.
pub mod Loops
pub mod Fallback
pub mod Linux
pub mod Macos
pub mod Windows
