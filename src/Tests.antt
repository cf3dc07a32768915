-- ===== src/Tests.antt =====
-- A sample program and the properties applied to it.
pub mod Sample
mod Passes
mod Costs
mod Order
mod Fusion
mod BackEnd
mod Types
mod Lines
pub mod Runtime
mod Requests
