-- ===== src/Lib.antt =====
-- Verification of hale, a language for programs that call web services: its compiler from the
-- syntax tree to the node graph that the runtime executes, with the optimizations and the static
-- cost analysis, and the evaluation of expressions and of single requests at run time.
--
-- The parts of the program. crates/hale-syntax holds the syntax tree, diagnostics and the printer.
-- crates/hale-compiler lowers each block to a list of nodes with dependency edges (lower.rs into
-- the types of ir.rs), rewrites the list (optimize.rs: fusion, deduplication, dead-request
-- elimination, the schedule of parallel waves) and checks declared budgets against the worst-case
-- cost (cost.rs). crates/hale-runtime executes the waves: eval.rs gives expressions a value, and
-- `do_fetch` of exec.rs builds a request, takes its outcome from a recording, a mock or the
-- network, checks the contract and runs the pipeline. What these read of the environment is what
-- the compiler's free variables are there for; Runtime/Reads and Runtime/Fetch/Reads are about
-- this. The passes change `Body` in place; here each pass is a function from the old body to the
-- new one, and its warnings are a function of the same argument.
--
-- Which file models which part:
--   Prelude, Prelude/Lists, Prelude/Text, Prelude/Tests: Boolean tests, positions in a list,
--     sorted sets of names (`BTreeSet<String>`), association lists (`HashMap`, latest entry first),
--     text.
--   Syntax/Span, Syntax/LineMap, Syntax/Diag: crates/hale-syntax/src/span.rs and diag.rs. A source
--     text of the line map is its list of bytes, and `binary_search` is a search from the left.
--   Syntax/Ast, Syntax/Items: crates/hale-syntax/src/ast.rs. A recursive type that holds a vector
--     of itself is two data types, as in `Expr` and `Exprs`.
--   Syntax/Pretty, Syntax/Pretty/Words: crates/hale-syntax/src/pretty.rs, `expr`, `stmt`,
--     `pipeline_op` and what they call.
--   Compiler/Ir: crates/hale-compiler/src/ir.rs. A nested body is in the stored form `Stored`, and
--     `load` and `store` translate; Ir/Deep states a fact of all nested node lists, Ir/Everywhere of
--     all nested bodies with their waves, and Ir/Depth counts how deep bodies nest.
--   Compiler/Deps: `compute_deps` of lower.rs and `recompute_deps` of optimize.rs; Deps/Meaning
--     says what an edge means, Deps/Wired that ids are positions and edges lead backwards.
--   Compiler/Lower: lower.rs. FreeVars has `free_vars` and its helpers, Scope the external reads,
--     Nodes has `lower_stmts`, `lower_stmt`, `lower_match` and `push`, Annotate the latency and
--     batch annotations, Settings what is read from settings, with
--     Settings/Declared about what an endpoint declares, Programs has `lower_program`; Occurs
--     has a set-free notion of free occurrence, Sound the invariant of lowered blocks.
--   Compiler/Optimize: optimize.rs. Driver has `optimize` and `optimize_body`, Dedup has
--     `dedup_requests` and `fetch_sig`, Liveness has `liveness`, Waves has `schedule_waves`; their
--     child modules hold the proofs, Wired is about well-formed lists, Settled about flags and
--     kinds, Effects lists the effects, Chained and Order are about their order, Driver/Program
--     about what comes out of it all.
--   Compiler/Fusion: `fuse_requests` of optimize.rs in Fusion/Requests, `fuse_loops` in
--     Fusion/Loops, what both use in Fusion; the modules Kept show what fusion keeps.
--   Compiler/Cost: cost.rs. Cost has `request_cost` and its helpers, Cost/Budgets has
--     `check_budgets` and `check_one`; Calls, Join and Budgets/Met hold the proofs.
--   Compiler/Effects: `effects` and `effects_into` of cost.rs; Covered and Calls hold the proofs.
--   Compiler/Types: types.rs; Types/Declared is about new records, Types/Shown about the names of
--     types.
--   Compiler/BackEnd: `compile` of lib.rs behind the parser and the checks, whose diagnostics are
--     an argument; Warnings is about the optimizer's reports, Accepts about what is accepted.
--   Runtime/Value, Runtime/Json: value.rs of crates/hale-runtime; Runtime/Action has the result of
--     a run with its printed lines, Runtime/I64 and Runtime/F64 the numbers, I64/Exact is about
--     wrap-around, Eval/Arithmetic about the operators on integers.
--   Runtime/Operators, Runtime/Patterns, Runtime/Eval, Runtime/Pipeline: eval.rs; an environment is
--     an association list. Operators has the operators and `compare`, Eval/Calls the parts of `eval`
--     that see no expression. Patterns/Bound, Eval/Agree, Eval/Local and Pipeline/Local are about
--     names and environments, Eval/Tidy has the conditions on expressions, Operators/Reversed,
--     Pipeline/Sorted and Pipeline/Stable are about the order of values.
--   Runtime/Mock, Runtime/Contracts, Runtime/Recording: mock.rs, contracts.rs and record.rs.
--   Runtime/Fetch: `do_fetch` of exec.rs; Fetch/Request has its path and query, Fetch/Local and
--     Fetch/Reads are about its reads.
--   Tests: a sample block and a sample flow, with the theorems applied to them.
--
-- Bounds and fuel. Ids, positions and counts are natural numbers. The sums of the cost analysis wrap at
-- 2^64, as `usize` and `u64` do in the release profile on a 64-bit machine. The
-- worklist of `liveness` runs for as many rounds as there are nodes, since a node enters it once.
-- `flow_call_cost`, like a call in `effects_into`, has as much fuel as there are flows, since a
-- flow that is being visited is not entered again. `optimize_body` has the depth of the nested
-- bodies as fuel, which the passes never increase. Everything else is structural recursion. Spans
-- are pairs of numbers.
--
-- Parameters. How Rust formats an `f64` is the argument `show_float`, from its 64-bit pattern; how
-- a text is read as an `i64` is `parse_int`, from `str::parse`; `str::to_uppercase` is
-- `to_uppercase`. At run time `Floats` has the rounding arithmetic and the text of an `f64`, whose
-- sign, order and tests are written out; `process_env` is `std::env::var`; `HttpEngine` is the
-- HTTP client, which calls reqwest. Integers wrap around, as in the release profile, where the
-- debug profile panics. `sort_by` is a stable insertion where the comparison orders the keys at hand;
-- where it does not, Rust leaves the order open and may panic, and the result is a field of `Floats`.
--
-- Not modelled: the lexer and the parser, the checker (check.rs, nplus1.rs), the rendering of
-- plans and diagnostics; of the runtime the walk over the waves (`run_body`, `run_match`,
-- `run_flow`), the storing of a recording during a run, everything that reads or writes values of
-- serde_json (`from_json`, infer.rs, schema.rs, the files of recordings), http.rs, config.rs and
-- server.rs; the command line, the language server and the Python binding.
mod Prelude
pub mod Syntax
pub mod Compiler
pub mod Runtime
mod Tests
