-- ===== src/Examples.antt =====
-- examples: the programs that show how the library is used.
pub mod Select
pub mod ConfigBuilder
