-- ===== src/Formatter.antt =====
-- src/formatter.rs: patterns of log lines.
pub mod Defs
pub mod Render
mod Runs
