-- ===== src/Queue.antt =====
-- src/queue.rs: the queue of byte messages between one logging thread and the backend.
pub mod Ring
pub mod Defs
pub mod Writes
pub mod Frames
pub mod Push
pub mod Pop
pub mod Grow
pub mod Encoded
pub mod Refine
pub mod Misaligned
mod Runs
