-- ===== src/Syntax.antt =====
-- crates/hale-syntax: positions, diagnostics, the syntax tree and its printer.
pub mod Span
pub mod LineMap
pub mod Diag
pub mod Ast
pub mod Items
pub mod Pretty
