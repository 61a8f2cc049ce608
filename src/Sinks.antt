-- ===== src/Sinks.antt =====
-- src/sink.rs and src/sinks/: the sinks of files, and the sink that drops its lines.
pub mod Defs
pub mod Contents
mod Runs
