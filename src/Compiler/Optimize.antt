-- ===== src/Compiler/Optimize.antt =====
-- crates/hale-compiler/src/optimize.rs: the passes over a body.
pub mod Liveness
pub mod Waves
pub mod Dedup
pub mod Wired
pub mod Chained
pub mod Order
pub mod Effects
pub mod Settled
pub mod Driver
