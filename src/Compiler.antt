-- ===== src/Compiler.antt =====
-- crates/hale-compiler: lowering, the optimizer and the cost analysis.
pub mod Ir
pub mod Deps
pub mod Lower
pub mod Optimize
pub mod Fusion
pub mod Cost
pub mod Effects
pub mod BackEnd
pub mod Types
