-- ===== src/Derive.antt =====
-- rapidlog_derive/src/lib.rs: what `#[derive(Encode)]` generates.
pub mod Defs
pub mod Fields
pub mod Structs
pub mod Names
pub mod Variants
pub mod Enums
pub mod EnumNames
mod Runs
