-- ===== src/Macros.antt =====
-- src/macros.rs: what `log_impl!` does at a call site.
pub mod Defs
pub mod Arguments
pub mod Sends
pub mod Bodies
pub mod Logged
pub mod Levels
pub mod Tables
mod Runs
