-- ===== src/Arg.antt =====
-- src/arg: the binary format of log arguments.
pub mod Opcode
pub mod Measure
pub mod Format
pub mod Commas
pub mod Heads
pub mod Delimited
pub mod Numbers
pub mod Read
pub mod Pieces
pub mod Search
pub mod Variants
