-- ===== src/Body.antt =====
-- src/arg/schema.rs, lines 347 to 476: the arguments of a call site cut apart, and the log body.
pub mod Defs
pub mod Template
mod Runs
