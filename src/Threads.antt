-- ===== src/Threads.antt =====
-- src/thread_context.rs and src/frontend.rs: each thread's queue, and the registry of consumers.
pub mod Defs
pub mod Held
pub mod Attempt
pub mod Growth
pub mod Poll
pub mod Delivered
pub mod Push
mod Runs
pub mod Encoded
