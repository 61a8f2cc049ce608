-- ===== src/Backend.antt =====
-- The worker that turns queued messages into lines of the sinks.
pub mod Defs
pub mod Line
pub mod Delivery
pub mod Order
pub mod Sort
pub mod Worker
mod Runs
pub mod Logged
pub mod EndToEnd
