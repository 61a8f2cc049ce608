-- ===== src/Logger.antt =====
-- The loggers: their registry and their filters.
pub mod Filter
pub mod Defs
pub mod Registry
mod Runs
