-- ===== src/Compiler/BackEnd.antt =====
-- What `compile` of crates/hale-compiler/src/lib.rs does behind the parser and the checks: lowering, the
-- optimizer and the budgets.
pub mod Warnings
pub mod Accepts
use tired.Prelude.{ℕ, String, Option, none, some, List, ◌++◌, if◌then◌else◌}
use tired.Syntax.Ast.{ℤ}
use tired.Syntax.Diag.{Diagnostics, has_errors, extend}
use tired.Syntax.Items.{Program}
use tired.Compiler.Lower.Programs.{Lowered, lower_program}
use tired.Compiler.Optimize.Driver.{optimize}
use tired.Compiler.Cost.Budgets.{check_budgets}

-- The end of `compile`: a program with errors is refused.
unfoldable pub verdict : Lowered → Diagnostics → Option Lowered × Diagnostics
verdict l all = if has_errors all then (none, all) else (some l, all)

module _ (show_float : ℕ → String) (parse_int : String → Option ℤ)
    (to_uppercase : String → String) where
  -- The call of `optimize`: the bodies behind it, and its warnings.
  unfoldable pub optimized : Lowered → Lowered × Diagnostics
  unfolding optimize
  optimized l =
      let (main, flows, tests, servers, ds) =
        optimize show_float parse_int l.main l.flows l.tests l.servers in
      (record { main = main; flows = flows; tests = tests; servers = servers }, ds)

  -- `diags` is what the parser and the checks reported.
  unfoldable pub back_end : Program → Diagnostics → Option Lowered × Diagnostics
  unfolding verdict extend
  back_end p diags =
      let (l, ds) = optimized (lower_program to_uppercase p) in
      verdict l (extend (extend diags ds) (check_budgets l.flows l.servers))
