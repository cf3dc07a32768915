-- ===== src/Runtime/Eval/Tidy.antt =====
-- Conditions on an expression that crates/hale-runtime/src/eval.rs runs.
use tired.Prelude.{String, true, ◌≡◌, List, contains}
use tired.Syntax.Ast.{
  Expr, int, float, bool, null, duration, str, ident, env_var, implicit_field, field, call, unary,
  binary, record_of, array, spread, lambda, match_on, range, StrParts, no_parts, lit, interp, Exprs,
  no_exprs, expr_and, Fields, no_fields, field_and, OptExpr, absent, present, MatchExpr, match_expr,
  MatchArms, no_arms, arm_and, ArmBody, value_arm, block_arm, retry_arm, block, Stmts, no_stmts,
  stmt_and, let_stmt, log_stmt, return_stmt, assert_stmt, using_mock, expr_stmt, PipelineOps,
  no_ops, op_and, PipelineOp, filter, map_op, sort_op, limit, skip, reverse_op, unique, flatten_op,
  count_op, sum_op,
}
use tired.Runtime.Patterns.Bound.{IsPlain}

-- `$x` reads only names of the list, and patterns are plain; what `eval` does not run is free.
unfoldable mutual
  pub Tidy : List String → Expr → Type 0
  Tidy names (int _ _) = Unit
  Tidy names (float _ _) = Unit
  Tidy names (bool _ _) = Unit
  Tidy names (null _) = Unit
  Tidy names (duration _ _) = Unit
  Tidy names (str parts _) = TidyParts names parts
  Tidy names (ident _) = Unit
  Tidy names (env_var n) = contains n.node names ≡ true
  Tidy names (implicit_field _) = Unit
  Tidy names (field base _ _) = Tidy names base
  Tidy names (call callee args _) = Tidy names callee × TidyArgs names args
  Tidy names (unary _ rhs _) = Tidy names rhs
  Tidy names (binary _ lhs rhs _) = Tidy names lhs × Tidy names rhs
  Tidy names (record_of _ fields _) = TidyFields names fields
  Tidy names (array elems _) = TidyArgs names elems
  Tidy names (spread e _) = Tidy names e
  Tidy names (lambda _ body _) = Tidy names body
  Tidy names (match_on m) = TidyMatch names m
  Tidy names (range lo hi _) = Tidy names lo × Tidy names hi

  pub TidyParts : List String → StrParts → Type 0
  TidyParts names no_parts = Unit
  TidyParts names (lit _ ps) = TidyParts names ps
  TidyParts names (interp e ps) = Tidy names e × TidyParts names ps

  pub TidyArgs : List String → Exprs → Type 0
  TidyArgs names no_exprs = Unit
  TidyArgs names (expr_and e es) = Tidy names e × TidyArgs names es

  pub TidyFields : List String → Fields → Type 0
  TidyFields names no_fields = Unit
  TidyFields names (field_and _ e fs) = Tidy names e × TidyFields names fs

  pub TidyMatch : List String → MatchExpr → Type 0
  TidyMatch names (match_expr scrutinee arms _) = Tidy names scrutinee × TidyArms names arms

  pub TidyArms : List String → MatchArms → Type 0
  TidyArms names no_arms = Unit
  TidyArms names (arm_and p b _ arms) = (IsPlain p × TidyArm names b) × TidyArms names arms

  pub TidyArm : List String → ArmBody → Type 0
  TidyArm names (value_arm e) = Tidy names e
  TidyArm names (block_arm (block ss _)) = TidyBlock names ss
  TidyArm names (retry_arm _ _) = Unit

  pub TidyBlock : List String → Stmts → Type 0
  TidyBlock names no_stmts = Unit
  TidyBlock names (stmt_and (let_stmt _ e _) ss) = Tidy names e × TidyBlock names ss
  TidyBlock names (stmt_and (log_stmt e _) ss) = Tidy names e × TidyBlock names ss
  TidyBlock names (stmt_and (return_stmt value _) ss) = TidyOpt names value
  TidyBlock names (stmt_and (expr_stmt e _ _) ss) = Tidy names e × TidyBlock names ss
  TidyBlock names (stmt_and (assert_stmt e _) ss) = Tidy names e × TidyBlock names ss
  TidyBlock names (stmt_and (using_mock _ _) ss) = TidyBlock names ss
  TidyBlock names (stmt_and _ ss) = Unit

  pub TidyOpt : List String → OptExpr → Type 0
  TidyOpt names absent = Unit
  TidyOpt names (present e) = Tidy names e

unfoldable pub TidyOp : List String → PipelineOp → Type 0
unfolding Tidy
TidyOp names (filter e _) = Tidy names e
TidyOp names (map_op e _) = Tidy names e
TidyOp names (sort_op by _ _) = Tidy names by
TidyOp names (limit count _) = Tidy names count
TidyOp names (skip count _) = Tidy names count
TidyOp names (unique by _) = TidyOpt names by
TidyOp names (sum_op by _) = TidyOpt names by
TidyOp names (reverse_op _) = Unit
TidyOp names (flatten_op _) = Unit
TidyOp names (count_op _) = Unit

unfoldable pub TidyOps : List String → PipelineOps → Type 0
TidyOps names no_ops = Unit
TidyOps names (op_and op ops) = TidyOp names op × TidyOps names ops
