-- ===== src/Compiler/Lower/Occurs.antt =====
-- Free occurrence, one name at a time and with no set: what `free_vars` of
-- crates/hale-compiler/src/lower.rs is measured against.
pub mod Free
use tired.Prelude.{
  String, List, [], Bool, false, not, ◌&&◌, ◌||◌, ◌≡◌, refl, arith, contains, str_eq,
  contains-insert, contains-remove, contains-insert_all, contains-remove_all, insert_all, remove,
  remove_all,
}
use tired.Syntax.Ast.{
  Expr, int, float, bool, null, duration, str, ident, env_var, implicit_field, field, call, unary,
  binary, record_of, array, spread, lambda, match_on, range, StrParts, no_parts, lit, interp, Exprs,
  no_exprs, expr_and, Fields, no_fields, field_and, OptExpr, absent, present, MatchExpr, match_expr,
  MatchArms, no_arms, arm_and, ArmBody, value_arm, block_arm, retry_arm, Effects, no_effects,
  call_effect, wait_effect, Block, block, Stmts, no_stmts, stmt_and, Stmt, fetch_stmt, let_stmt,
  log_stmt, parallel, for_each, return_stmt, assert_stmt, using_mock, expr_stmt, FetchStmt, fetch,
  PathPattern, path, PathSegs, no_segs, literal_and, param_and, PipelineOps, no_ops, op_and,
  PipelineOp, filter, map_op, sort_op, limit, skip, reverse_op, unique, flatten_op, count_op,
  sum_op,
}
use tired.Compiler.Lower.FreeVars.{
  pattern_binds, free_vars, free_vars_of, parts_vars, exprs_vars, fields_vars, match_vars,
  arms_vars, arm_vars, effects_vars, block_vars, stmts_vars, stmt_free_vars, fetch_vars, opt_vars,
  path_vars, segs_vars, ops_vars, pipeline_reads,
}

-- A name bound by a pattern, a λ or a loop does not occur free below the binder; a name that
-- a statement binds is not taken away from the statements behind it.
unfoldable mutual
  pub occurs : String → Expr → Bool
  occurs x (ident n) = str_eq n.node x
  occurs x (env_var _) = false
  occurs x (int _ _) = false
  occurs x (float _ _) = false
  occurs x (bool _ _) = false
  occurs x (null _) = false
  occurs x (duration _ _) = false
  occurs x (implicit_field _) = false
  occurs x (str parts _) = in_parts x parts
  occurs x (field base _ _) = occurs x base
  occurs x (call callee args _) = in_exprs x args || occurs x callee
  occurs x (unary _ rhs _) = occurs x rhs
  occurs x (binary _ lhs rhs _) = occurs x rhs || occurs x lhs
  occurs x (record_of _ fields _) = in_fields x fields
  occurs x (array elems _) = in_exprs x elems
  occurs x (spread e _) = occurs x e
  occurs x (lambda param body _) = not (str_eq param.node x) && occurs x body
  occurs x (match_on m) = in_match x m
  occurs x (range lo hi _) = occurs x hi || occurs x lo

  pub in_parts : String → StrParts → Bool
  in_parts x no_parts = false
  in_parts x (lit _ ps) = in_parts x ps
  in_parts x (interp e ps) = in_parts x ps || occurs x e

  pub in_exprs : String → Exprs → Bool
  in_exprs x no_exprs = false
  in_exprs x (expr_and e es) = in_exprs x es || occurs x e

  pub in_fields : String → Fields → Bool
  in_fields x no_fields = false
  in_fields x (field_and _ e fs) = in_fields x fs || occurs x e

  pub in_match : String → MatchExpr → Bool
  in_match x (match_expr scrutinee arms _) = in_arms x arms || occurs x scrutinee

  pub in_arms : String → MatchArms → Bool
  in_arms x no_arms = false
  in_arms x (arm_and p b _ arms) =
      in_arms x arms || (not (contains x (pattern_binds p)) && in_arm x b)

  pub in_arm : String → ArmBody → Bool
  in_arm x (value_arm e) = occurs x e
  in_arm x (block_arm b) = in_block x b
  in_arm x (retry_arm effects _) = in_effects x effects

  pub in_effects : String → Effects → Bool
  in_effects x no_effects = false
  in_effects x (call_effect e es) = in_effects x es || occurs x e
  in_effects x (wait_effect e es) = in_effects x es || occurs x e

  pub in_block : String → Block → Bool
  in_block x (block ss _) = in_stmts x ss

  pub in_stmts : String → Stmts → Bool
  in_stmts x no_stmts = false
  in_stmts x (stmt_and s ss) = in_stmts x ss || in_stmt x s

  pub in_stmt : String → Stmt → Bool
  in_stmt x (fetch_stmt f) = in_fetch x f
  in_stmt x (let_stmt _ value _) = occurs x value
  in_stmt x (log_stmt value _) = occurs x value
  in_stmt x (assert_stmt value _) = occurs x value
  in_stmt x (return_stmt value _) = in_opt x value
  in_stmt x (expr_stmt e _ _) = occurs x e
  in_stmt x (parallel b _) = in_block x b
  in_stmt x (for_each var iter body _) =
      (not (str_eq var.node x) && in_block x body) || occurs x iter
  in_stmt x (using_mock _ _) = false

  pub in_fetch : String → FetchStmt → Bool
  in_fetch x (fetch _ _ p params _ _ ops _ _) = in_ops x ops || (in_fields x params || in_path x p)

  pub in_opt : String → OptExpr → Bool
  in_opt x absent = false
  in_opt x (present e) = occurs x e

  pub in_path : String → PathPattern → Bool
  in_path x (path ss _) = in_segs x ss

  pub in_segs : String → PathSegs → Bool
  in_segs x no_segs = false
  in_segs x (literal_and _ ss) = in_segs x ss
  in_segs x (param_and e ss) = in_segs x ss || occurs x e

  pub in_ops : String → PipelineOps → Bool
  in_ops x no_ops = false
  in_ops x (op_and op ops) = in_ops x ops || in_op x op

  pub in_op : String → PipelineOp → Bool
  in_op x (filter e _) = occurs x e
  in_op x (map_op e _) = occurs x e
  in_op x (sort_op by _ _) = occurs x by
  in_op x (limit count _) = occurs x count
  in_op x (skip count _) = occurs x count
  in_op x (unique by _) = in_opt x by
  in_op x (sum_op by _) = in_opt x by
  in_op x (reverse_op _) = false
  in_op x (flatten_op _) = false
  in_op x (count_op _) = false
