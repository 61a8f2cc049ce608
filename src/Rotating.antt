-- ===== src/Rotating.antt =====
-- src/sinks/rotating.rs: the sink that rotates its file.
pub mod Defs
pub mod Kept
mod Runs
