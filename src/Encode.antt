-- ===== src/Encode.antt =====
-- src/arg/{traits,primitives,compound,container,pointer}.rs: the trait `Encode` and its impls.
pub mod Defs
pub mod Primitives
pub mod Compound
pub mod Container
pub mod Shown
pub mod RoundTrip
pub mod Texts
pub mod Pointer
pub mod Leaves
pub mod Sequences
pub mod Tuples
pub mod Maps
pub mod Enums
pub mod Results
mod Runs
