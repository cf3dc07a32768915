-- ===== src/Compiler/Lower.antt =====
-- crates/hale-compiler/src/lower.rs: from the syntax tree to nodes with edges.
pub mod FreeVars
pub mod Occurs
pub mod Scope
pub mod Nodes
pub mod Sound
pub mod Annotate
pub mod Settings
pub mod Programs
