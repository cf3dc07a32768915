-- ===== src/Compiler/Lower/Occurs/Free.antt =====
-- `free_vars` of crates/hale-compiler/src/lower.rs finds the names that occur free.
use tired.Prelude.{
  String, List, [], ◌||◌, ◌≡◌, refl, arith, contains, contains-insert, contains-remove,
  contains-insert_all, contains-remove_all, insert_all, remove, remove_all,
}
use tired.Syntax.Ast.{
  Expr, int, float, bool, null, duration, str, ident, env_var, implicit_field, field, call, unary,
  binary, record_of, array, spread, lambda, match_on, range, StrParts, no_parts, lit, interp, Exprs,
  no_exprs, expr_and, Fields, no_fields, field_and, OptExpr, absent, present, MatchExpr, match_expr,
  MatchArms, no_arms, arm_and, ArmBody, value_arm, block_arm, retry_arm, Effects, no_effects,
  call_effect, wait_effect, Block, block, Stmts, no_stmts, stmt_and, Stmt, fetch_stmt, let_stmt,
  log_stmt, parallel, for_each, return_stmt, assert_stmt, using_mock, expr_stmt, FetchStmt, fetch,
  PathPattern, path, PathSegs, no_segs, literal_and, param_and, PipelineOps, no_ops, op_and,
  PipelineOp, filter, map_op, sort_op, limit, skip, reverse_op, unique, flatten_op, count_op,
  sum_op,
}
use tired.Compiler.Lower.FreeVars.{
  pattern_binds, free_vars, free_vars_of, parts_vars, exprs_vars, fields_vars, match_vars,
  arms_vars, arm_vars, effects_vars, block_vars, stmts_vars, stmt_free_vars, fetch_vars, opt_vars,
  path_vars, segs_vars, ops_vars, pipeline_reads,
}
use tired.Compiler.Lower.Occurs.{
  occurs, in_parts, in_exprs, in_fields, in_match, in_arms, in_arm, in_effects, in_block, in_stmts,
  in_stmt, in_fetch, in_opt, in_path, in_segs, in_ops, in_op,
}

mutual
  unfolding free_vars occurs

  contains-free_vars :
      (x : String) (e : Expr) (out : List String)
      → contains x (free_vars e out) ≡ occurs x e || contains x out
  contains-free_vars x (ident n) out = ground (arith, contains-insert n.node x out)
  contains-free_vars x (env_var _) out = refl
  contains-free_vars x (int _ _) out = refl
  contains-free_vars x (float _ _) out = refl
  contains-free_vars x (bool _ _) out = refl
  contains-free_vars x (null _) out = refl
  contains-free_vars x (duration _ _) out = refl
  contains-free_vars x (implicit_field _) out = refl
  contains-free_vars x (str parts _) out = contains-parts_vars x parts out
  contains-free_vars x (field base _ _) out = contains-free_vars x base out
  contains-free_vars x (call callee args _) out =
      ground
        (arith, contains-exprs_vars x args (free_vars callee out), contains-free_vars x callee out)
  contains-free_vars x (unary _ rhs _) out = contains-free_vars x rhs out
  contains-free_vars x (binary _ lhs rhs _) out =
      ground (arith, contains-free_vars x rhs (free_vars lhs out), contains-free_vars x lhs out)
  contains-free_vars x (record_of _ fields _) out = contains-fields_vars x fields out
  contains-free_vars x (array elems _) out = contains-exprs_vars x elems out
  contains-free_vars x (spread e _) out = contains-free_vars x e out
  contains-free_vars x (lambda param body _) out = ground (
    arith,
    contains-insert_all (remove param.node (free_vars body [])) x out,
    contains-remove param.node x (free_vars body []),
    contains-free_vars x body [],
  )
  contains-free_vars x (match_on m) out = contains-match_vars x m out
  contains-free_vars x (range lo hi _) out =
      ground (arith, contains-free_vars x hi (free_vars lo out), contains-free_vars x lo out)

  contains-parts_vars :
      (x : String) (e : StrParts) (out : List String)
      → contains x (parts_vars e out) ≡ in_parts x e || contains x out
  contains-parts_vars x no_parts out = refl
  contains-parts_vars x (lit _ ps) out = contains-parts_vars x ps out
  contains-parts_vars x (interp e ps) out =
      ground (arith, contains-parts_vars x ps (free_vars e out), contains-free_vars x e out)

  contains-exprs_vars :
      (x : String) (e : Exprs) (out : List String)
      → contains x (exprs_vars e out) ≡ in_exprs x e || contains x out
  contains-exprs_vars x no_exprs out = refl
  contains-exprs_vars x (expr_and e es) out =
      ground (arith, contains-exprs_vars x es (free_vars e out), contains-free_vars x e out)

  pub contains-fields_vars :
      (x : String) (e : Fields) (out : List String)
      → contains x (fields_vars e out) ≡ in_fields x e || contains x out
  contains-fields_vars x no_fields out = refl
  contains-fields_vars x (field_and _ e fs) out =
      ground (arith, contains-fields_vars x fs (free_vars e out), contains-free_vars x e out)

  contains-match_vars :
      (x : String) (e : MatchExpr) (out : List String)
      → contains x (match_vars e out) ≡ in_match x e || contains x out
  contains-match_vars x (match_expr scrutinee arms _) out = ground (
    arith,
    contains-arms_vars x arms (free_vars scrutinee out),
    contains-free_vars x scrutinee out,
  )

  contains-arms_vars :
      (x : String) (e : MatchArms) (out : List String)
      → contains x (arms_vars e out) ≡ in_arms x e || contains x out
  contains-arms_vars x no_arms out = refl
  contains-arms_vars x (arm_and p b _ arms) out = ground (
    arith,
    contains-insert_all (remove_all (pattern_binds p) (arm_vars b [])) x out,
    contains-remove_all (pattern_binds p) x (arm_vars b []),
    contains-arms_vars x arms (insert_all (remove_all (pattern_binds p) (arm_vars b [])) out),
    contains-arm_vars x b [],
  )

  contains-arm_vars :
      (x : String) (e : ArmBody) (out : List String)
      → contains x (arm_vars e out) ≡ in_arm x e || contains x out
  contains-arm_vars x (value_arm e) out = contains-free_vars x e out
  contains-arm_vars x (block_arm b) out = contains-block_vars x b out
  contains-arm_vars x (retry_arm effects _) out = contains-effects_vars x effects out

  contains-effects_vars :
      (x : String) (e : Effects) (out : List String)
      → contains x (effects_vars e out) ≡ in_effects x e || contains x out
  contains-effects_vars x no_effects out = refl
  contains-effects_vars x (call_effect e es) out =
      ground (arith, contains-effects_vars x es (free_vars e out), contains-free_vars x e out)
  contains-effects_vars x (wait_effect e es) out =
      ground (arith, contains-effects_vars x es (free_vars e out), contains-free_vars x e out)

  contains-block_vars :
      (x : String) (e : Block) (out : List String)
      → contains x (block_vars e out) ≡ in_block x e || contains x out
  contains-block_vars x (block ss _) out = contains-stmts_vars x ss out

  contains-stmts_vars :
      (x : String) (e : Stmts) (out : List String)
      → contains x (stmts_vars e out) ≡ in_stmts x e || contains x out
  contains-stmts_vars x no_stmts out = refl
  contains-stmts_vars x (stmt_and s ss) out =
      ground
        (arith, contains-stmts_vars x ss (stmt_free_vars s out), contains-stmt_free_vars x s out)

  contains-stmt_free_vars :
      (x : String) (e : Stmt) (out : List String)
      → contains x (stmt_free_vars e out) ≡ in_stmt x e || contains x out
  contains-stmt_free_vars x (fetch_stmt f) out = contains-fetch_vars x f out
  contains-stmt_free_vars x (let_stmt _ value _) out = contains-free_vars x value out
  contains-stmt_free_vars x (log_stmt value _) out = contains-free_vars x value out
  contains-stmt_free_vars x (assert_stmt value _) out = contains-free_vars x value out
  contains-stmt_free_vars x (return_stmt value _) out = contains-opt_vars x value out
  contains-stmt_free_vars x (expr_stmt e _ _) out = contains-free_vars x e out
  contains-stmt_free_vars x (parallel b _) out = contains-block_vars x b out
  contains-stmt_free_vars x (for_each var iter body _) out = ground (
    arith,
    contains-insert_all (remove var.node (block_vars body [])) x (free_vars iter out),
    contains-remove var.node x (block_vars body []),
    contains-block_vars x body [],
    contains-free_vars x iter out,
  )
  contains-stmt_free_vars x (using_mock _ _) out = refl

  contains-fetch_vars :
      (x : String) (e : FetchStmt) (out : List String)
      → contains x (fetch_vars e out) ≡ in_fetch x e || contains x out
  contains-fetch_vars x (fetch _ _ p params _ _ ops _ _) out = ground (
    arith,
    contains-ops_vars x ops (fields_vars params (path_vars p out)),
    contains-fields_vars x params (path_vars p out),
    contains-path_vars x p out,
  )

  pub contains-opt_vars :
      (x : String) (e : OptExpr) (out : List String)
      → contains x (opt_vars e out) ≡ in_opt x e || contains x out
  contains-opt_vars x absent out = refl
  contains-opt_vars x (present e) out = contains-free_vars x e out

  pub contains-path_vars :
      (x : String) (e : PathPattern) (out : List String)
      → contains x (path_vars e out) ≡ in_path x e || contains x out
  contains-path_vars x (path ss _) out = contains-segs_vars x ss out

  contains-segs_vars :
      (x : String) (e : PathSegs) (out : List String)
      → contains x (segs_vars e out) ≡ in_segs x e || contains x out
  contains-segs_vars x no_segs out = refl
  contains-segs_vars x (literal_and _ ss) out = contains-segs_vars x ss out
  contains-segs_vars x (param_and e ss) out =
      ground (arith, contains-segs_vars x ss (free_vars e out), contains-free_vars x e out)

  pub contains-ops_vars :
      (x : String) (e : PipelineOps) (out : List String)
      → contains x (ops_vars e out) ≡ in_ops x e || contains x out
  contains-ops_vars x no_ops out = refl
  contains-ops_vars x (op_and op ops) out =
      ground
        (arith, contains-ops_vars x ops (pipeline_reads op out), contains-pipeline_reads x op out)

  contains-pipeline_reads :
      (x : String) (e : PipelineOp) (out : List String)
      → contains x (pipeline_reads e out) ≡ in_op x e || contains x out
  contains-pipeline_reads x (filter e _) out = contains-free_vars x e out
  contains-pipeline_reads x (map_op e _) out = contains-free_vars x e out
  contains-pipeline_reads x (sort_op e _ _) out = contains-free_vars x e out
  contains-pipeline_reads x (limit e _) out = contains-free_vars x e out
  contains-pipeline_reads x (skip e _) out = contains-free_vars x e out
  contains-pipeline_reads x (unique e _) out = contains-opt_vars x e out
  contains-pipeline_reads x (sum_op e _) out = contains-opt_vars x e out
  contains-pipeline_reads x (reverse_op _) out = refl
  contains-pipeline_reads x (flatten_op _) out = refl
  contains-pipeline_reads x (count_op _) out = refl

-- The free-variable analysis finds a name exactly if `occurs` holds of it: `occurs` looks for the name
-- by itself, with no set, and passes over the body and the idempotency key of a fetch in a block, as
-- the analysis does.
pub contains-free_vars_of : (x : String) (e : Expr) → contains x (free_vars_of e) ≡ occurs x e
unfolding free_vars_of
contains-free_vars_of x e = ground (arith, contains-free_vars x e [])
