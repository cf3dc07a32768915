-- ===== src/Runtime.antt =====
-- crates/hale-runtime: values, evaluation, mocks, contracts, recordings and single requests.
pub mod I64
pub mod F64
pub mod Value
pub mod Json
pub mod Action
pub mod Operators
pub mod Patterns
pub mod Eval
pub mod Pipeline
pub mod Reads
pub mod Mock
pub mod Contracts
pub mod Recording
pub mod Fetch
