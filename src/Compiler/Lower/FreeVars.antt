-- ===== src/Compiler/Lower/FreeVars.antt =====
-- The free-variable analysis of crates/hale-compiler/src/lower.rs. `out` is the `BTreeSet` that the
-- functions grow; each loop over a list is a function of its own.
use tired.Prelude.{String, List, [], ◌∷◌, ◌++◌, insert, remove, insert_all, remove_all}
use tired.Syntax.Ast.{
  Pattern, Patterns, wildcard, binding, ctor, no_patterns, pattern_and, Expr, int, float, bool,
  null, duration, str, ident, env_var, implicit_field, field, call, unary, binary, record_of, array,
  spread, lambda, match_on, range, StrParts, no_parts, lit, interp, Exprs, no_exprs, expr_and,
  Fields, no_fields, field_and, OptExpr, absent, present, MatchExpr, match_expr, MatchArms, no_arms,
  arm_and, ArmBody, value_arm, block_arm, retry_arm, Effects, no_effects, call_effect, wait_effect,
  Block, block, Stmts, no_stmts, stmt_and, Stmt, fetch_stmt, let_stmt, log_stmt, parallel, for_each,
  return_stmt, assert_stmt, using_mock, expr_stmt, FetchStmt, fetch, PathPattern, path, PathSegs,
  no_segs, literal_and, param_and, PipelineOps, no_ops, op_and, PipelineOp, filter, map_op, sort_op,
  limit, skip, reverse_op, unique, flatten_op, count_op, sum_op,
}

unfoldable mutual
  pub collect_pattern_binds : Pattern → List String → List String
  collect_pattern_binds (wildcard _) out = out
  collect_pattern_binds (binding n) out = out ++ n.node ∷ []
  collect_pattern_binds (ctor _ args _) out = collect_binds args out

  pub collect_binds : Patterns → List String → List String
  collect_binds no_patterns out = out
  collect_binds (pattern_and p ps) out = collect_binds ps (collect_pattern_binds p out)

unfoldable pub pattern_binds : Pattern → List String
unfolding collect_pattern_binds
pattern_binds p = collect_pattern_binds p []

unfoldable mutual
  pub free_vars : Expr → List String → List String
  free_vars (ident n) out = insert n.node out
  free_vars (env_var _) out = out
  free_vars (int _ _) out = out
  free_vars (float _ _) out = out
  free_vars (bool _ _) out = out
  free_vars (null _) out = out
  free_vars (duration _ _) out = out
  free_vars (implicit_field _) out = out
  free_vars (str parts _) out = parts_vars parts out
  free_vars (field base _ _) out = free_vars base out
  free_vars (call callee args _) out = exprs_vars args (free_vars callee out)
  free_vars (unary _ rhs _) out = free_vars rhs out
  free_vars (binary _ lhs rhs _) out = free_vars rhs (free_vars lhs out)
  free_vars (record_of _ fields _) out = fields_vars fields out
  free_vars (array elems _) out = exprs_vars elems out
  free_vars (spread e _) out = free_vars e out
  free_vars (lambda param body _) out = insert_all (remove param.node (free_vars body [])) out
  free_vars (match_on m) out = match_vars m out
  free_vars (range lo hi _) out = free_vars hi (free_vars lo out)

  pub parts_vars : StrParts → List String → List String
  parts_vars no_parts out = out
  parts_vars (lit _ ps) out = parts_vars ps out
  parts_vars (interp e ps) out = parts_vars ps (free_vars e out)

  pub exprs_vars : Exprs → List String → List String
  exprs_vars no_exprs out = out
  exprs_vars (expr_and e es) out = exprs_vars es (free_vars e out)

  -- Also the loops over `params`.
  pub fields_vars : Fields → List String → List String
  fields_vars no_fields out = out
  fields_vars (field_and _ e fs) out = fields_vars fs (free_vars e out)

  pub match_vars : MatchExpr → List String → List String
  match_vars (match_expr scrutinee arms _) out = arms_vars arms (free_vars scrutinee out)

  pub arms_vars : MatchArms → List String → List String
  arms_vars no_arms out = out
  arms_vars (arm_and p b _ arms) out =
      arms_vars arms (insert_all (remove_all (pattern_binds p) (arm_vars b [])) out)

  pub arm_vars : ArmBody → List String → List String
  arm_vars (value_arm e) out = free_vars e out
  arm_vars (block_arm b) out = block_vars b out
  arm_vars (retry_arm effects _) out = effects_vars effects out

  pub effects_vars : Effects → List String → List String
  effects_vars no_effects out = out
  effects_vars (call_effect e es) out = effects_vars es (free_vars e out)
  effects_vars (wait_effect e es) out = effects_vars es (free_vars e out)

  pub block_vars : Block → List String → List String
  block_vars (block ss _) out = stmts_vars ss out

  pub stmts_vars : Stmts → List String → List String
  stmts_vars no_stmts out = out
  stmts_vars (stmt_and s ss) out = stmts_vars ss (stmt_free_vars s out)

  pub stmt_free_vars : Stmt → List String → List String
  stmt_free_vars (fetch_stmt f) out = fetch_vars f out
  stmt_free_vars (let_stmt _ value _) out = free_vars value out
  stmt_free_vars (log_stmt value _) out = free_vars value out
  stmt_free_vars (assert_stmt value _) out = free_vars value out
  stmt_free_vars (return_stmt value _) out = opt_vars value out
  stmt_free_vars (expr_stmt e _ _) out = free_vars e out
  stmt_free_vars (parallel b _) out = block_vars b out
  stmt_free_vars (for_each var iter body _) out =
      insert_all (remove var.node (block_vars body [])) (free_vars iter out)
  stmt_free_vars (using_mock _ _) out = out

  -- The request's body and its idempotency key are not visited here.
  pub fetch_vars : FetchStmt → List String → List String
  fetch_vars (fetch _ _ p params _ _ ops _ _) out =
      ops_vars ops (fields_vars params (path_vars p out))

  pub opt_vars : OptExpr → List String → List String
  opt_vars absent out = out
  opt_vars (present e) out = free_vars e out

  pub path_vars : PathPattern → List String → List String
  path_vars (path ss _) out = segs_vars ss out

  pub segs_vars : PathSegs → List String → List String
  segs_vars no_segs out = out
  segs_vars (literal_and _ ss) out = segs_vars ss out
  segs_vars (param_and e ss) out = segs_vars ss (free_vars e out)

  pub ops_vars : PipelineOps → List String → List String
  ops_vars no_ops out = out
  ops_vars (op_and op ops) out = ops_vars ops (pipeline_reads op out)

  pub pipeline_reads : PipelineOp → List String → List String
  pipeline_reads (filter e _) out = free_vars e out
  pipeline_reads (map_op e _) out = free_vars e out
  pipeline_reads (sort_op by _ _) out = free_vars by out
  pipeline_reads (limit count _) out = free_vars count out
  pipeline_reads (skip count _) out = free_vars count out
  pipeline_reads (unique by _) out = opt_vars by out
  pipeline_reads (sum_op by _) out = opt_vars by out
  pipeline_reads (reverse_op _) out = out
  pipeline_reads (flatten_op _) out = out
  pipeline_reads (count_op _) out = out

-- `vars` and `free_vars_of`
unfoldable pub free_vars_of : Expr → List String
unfolding free_vars
free_vars_of e = free_vars e []
