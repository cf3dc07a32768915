-- ===== src/Syntax/Pretty.antt =====
-- crates/hale-syntax/src/pretty.rs: the canonical text of expressions and statements. How Rust
-- prints an `f64` is the argument `show_float`, from the 64-bit pattern.
mod Words
unfoldable pub use tired.Syntax.Pretty.Words.{
  show_int, symbol, prec, pad, escape_char, escape, type_expr, type_texts, ctor_text, pattern_text,
  pattern_texts, binding_text, bind_suffix, operand, record_prefix, params_text,
}
use Prim.Native.Char.{Char, code}
use Prim.Native.String
use tired.Prelude.{
  ℕ, zero, suc, String, List, [], ◌∷◌, Option, none, some, ltb, ◌==◌, str_eq, if◌then◌else◌, concat,
  join, show_nat,
}
use tired.Syntax.Span.{Name}
use tired.Syntax.Ast.{
  ℤ, pos, negsuc, TypeExpr, TypeExprs, named, optional, array_of, generic, union, no_types,
  type_and, Pattern, Patterns, wildcard, binding, ctor, no_patterns, pattern_and, not_op, neg,
  BinOp, add, sub, mul, eq_op, ne_op, lt_op, le_op, gt_op, ge_op, and_op, or_op, Bind, Expr, int,
  float, bool, null, duration, str, ident, env_var, implicit_field, field, call, unary, binary,
  record_of, array, spread, lambda, match_on, range, StrParts, no_parts, lit, interp, Exprs,
  no_exprs, expr_and, Fields, no_fields, field_and, OptExpr, absent, present, MatchExpr, match_expr,
  MatchArms, no_arms, arm_and, ArmBody, value_arm, block_arm, retry_arm, Effects, no_effects,
  call_effect, wait_effect, Block, block, Stmts, no_stmts, stmt_and, Stmt, fetch_stmt, let_stmt,
  log_stmt, parallel, for_each, return_stmt, assert_stmt, using_mock, expr_stmt, FetchStmt, fetch,
  PathPattern, path, PathSegs, no_segs, literal_and, param_and, PipelineOps, no_ops, op_and,
  PipelineOp, filter, map_op, sort_op, limit, skip, reverse_op, unique, flatten_op, count_op,
  sum_op,
}

module _ (show_float : ℕ → String) where
  unfoldable mutual
    pub expr_indented : Expr → ℕ → String
    expr_indented (int n _) indent = show_int n
    expr_indented (float f _) indent = show_float f
    expr_indented (bool b _) indent = if b then "true" else "false"
    expr_indented (null _) indent = "null"
    expr_indented (duration ms _) indent = concat (show_nat ms ∷ "ms" ∷ [])
    expr_indented (str parts _) indent = concat ("\"" ∷ part_texts parts ∷ "\"" ∷ [])
    expr_indented (ident n) indent = n.node
    expr_indented (env_var n) indent = concat ("$" ∷ n.node ∷ [])
    expr_indented (implicit_field f) indent = concat ("." ∷ f.node ∷ [])
    expr_indented (field base f _) indent = concat (expr_indented base 0 ∷ "." ∷ f.node ∷ [])
    expr_indented (call callee args _) indent =
        concat (expr_indented callee 0 ∷ "(" ∷ join ", " (expr_texts args) ∷ ")" ∷ [])
    expr_indented (unary not_op rhs _) indent = concat ("not " ∷ expr_indented rhs 0 ∷ [])
    expr_indented (unary neg rhs _) indent = concat ("-" ∷ expr_indented rhs 0 ∷ [])
    expr_indented (binary op lhs rhs _) indent = concat (
        operand lhs (expr_indented lhs 0) (prec op)
        ∷ " "
        ∷ symbol op
        ∷ " "
        ∷ operand rhs (expr_indented rhs 0) (prec op)
        ∷ [])
    expr_indented (record_of name fields _) indent =
        concat (record_prefix name ∷ "{ " ∷ join ", " (field_texts fields) ∷ " }" ∷ [])
    expr_indented (array elems _) indent = concat ("[" ∷ join ", " (expr_texts elems) ∷ "]" ∷ [])
    expr_indented (spread e _) indent = concat ("..." ∷ expr_indented e 0 ∷ [])
    expr_indented (lambda p body _) indent = concat (p.node ∷ " => " ∷ expr_indented body 0 ∷ [])
    expr_indented (range lo hi _) indent =
        concat (expr_indented lo 0 ∷ ".." ∷ expr_indented hi 0 ∷ [])
    expr_indented (match_on m) indent = match_text m indent

    pub match_text : MatchExpr → ℕ → String
    match_text (match_expr scrutinee arms _) indent = concat (
        "match "
        ∷ expr_indented scrutinee 0
        ∷ " {\n"
        ∷ arm_texts arms (suc indent)
        ∷ pad indent
        ∷ "}"
        ∷ [])

    -- The lines of the arms; the argument is `indent + 1`.
    pub arm_texts : MatchArms → ℕ → String
    arm_texts no_arms indent = ""
    arm_texts (arm_and p b _ arms) indent = concat (
        pad indent
        ∷ pattern_text p
        ∷ " => "
        ∷ arm_body b indent
        ∷ "\n"
        ∷ arm_texts arms indent
        ∷ [])

    pub part_texts : StrParts → String
    part_texts no_parts = ""
    part_texts (lit t ps) = concat (escape t ∷ part_texts ps ∷ [])
    part_texts (interp e ps) = concat ("{" ∷ expr_indented e 0 ∷ "}" ∷ part_texts ps ∷ [])

    pub expr_texts : Exprs → List String
    expr_texts no_exprs = []
    expr_texts (expr_and e es) = expr_indented e 0 ∷ expr_texts es

    pub field_texts : Fields → List String
    field_texts no_fields = []
    field_texts (field_and k v fs) =
        concat (k.node ∷ ": " ∷ expr_indented v 0 ∷ []) ∷ field_texts fs

    pub arm_body : ArmBody → ℕ → String
    arm_body (value_arm e) indent = expr_indented e indent
    arm_body (block_arm b) indent =
        concat ("{\n" ∷ block_body b (suc indent) ∷ pad indent ∷ "}" ∷ [])
    arm_body (retry_arm effects _) indent = join " then " (effect_texts effects)

    -- The effects, and `retry` behind them.
    pub effect_texts : Effects → List String
    effect_texts no_effects = "retry" ∷ []
    effect_texts (call_effect e es) = expr_indented e 0 ∷ effect_texts es
    effect_texts (wait_effect e es) =
        concat ("wait(" ∷ expr_indented e 0 ∷ ")" ∷ []) ∷ effect_texts es

    pub block_body : Block → ℕ → String
    block_body (block ss _) indent = stmt_lines ss indent

    pub stmt_lines : Stmts → ℕ → String
    stmt_lines no_stmts indent = ""
    stmt_lines (stmt_and s ss) indent =
        concat (stmt_text s indent ∷ "\n" ∷ stmt_lines ss indent ∷ [])

    pub stmt_text : Stmt → ℕ → String
    stmt_text (fetch_stmt f) indent = concat (pad indent ∷ fetch_text f ∷ [])
    stmt_text (let_stmt name value _) indent =
        concat (pad indent ∷ "let " ∷ name.node ∷ " = " ∷ expr_indented value 0 ∷ [])
    stmt_text (log_stmt value _) indent = concat (pad indent ∷ "log " ∷ expr_indented value 0 ∷ [])
    stmt_text (parallel b _) indent =
        concat (pad indent ∷ "parallel {\n" ∷ block_body b (suc indent) ∷ pad indent ∷ "}" ∷ [])
    stmt_text (for_each var iter body _) indent = concat (
        pad indent
        ∷ "for "
        ∷ var.node
        ∷ " in "
        ∷ expr_indented iter 0
        ∷ " {\n"
        ∷ block_body body (suc indent)
        ∷ pad indent
        ∷ "}"
        ∷ [])
    stmt_text (return_stmt value _) indent =
        concat (pad indent ∷ "return" ∷ opt_text " " value ∷ [])
    stmt_text (assert_stmt value _) indent =
        concat (pad indent ∷ "assert " ∷ expr_indented value 0 ∷ [])
    stmt_text (using_mock name _) indent = concat (pad indent ∷ "using mock " ∷ name.node ∷ [])
    stmt_text (expr_stmt e bind _) indent =
        concat (pad indent ∷ expr_indented e indent ∷ bind_suffix bind ∷ [])

    -- A text before the expression, if it is there, and a closing one behind it.
    pub opt_text : String → OptExpr → String
    opt_text lead absent = ""
    opt_text lead (present e) = concat (lead ∷ expr_indented e 0 ∷ [])

    pub key_text : OptExpr → String
    key_text absent = ""
    key_text (present e) = concat (" idempotent(key: " ∷ expr_indented e 0 ∷ ")" ∷ [])

    pub fetch_text : FetchStmt → String
    fetch_text (fetch method endpoint p params payload key ops bind _) = concat (
        "fetch "
        ∷ (if str_eq method "GET" then "" else concat (method ∷ " " ∷ []))
        ∷ endpoint.node
        ∷ " "
        ∷ path_text p
        ∷ key_text key
        ∷ opt_text " body " payload
        ∷ params_text (field_texts params)
        ∷ op_texts ops
        ∷ bind_suffix bind
        ∷ [])

    pub path_text : PathPattern → String
    path_text (path ss _) = let s = seg_texts ss in if str_eq s "" then "/" else s

    pub seg_texts : PathSegs → String
    seg_texts no_segs = ""
    seg_texts (literal_and l ss) = concat ("/" ∷ l ∷ seg_texts ss ∷ [])
    seg_texts (param_and e ss) = concat ("/{" ∷ expr_indented e 0 ∷ "}" ∷ seg_texts ss ∷ [])

    pub op_texts : PipelineOps → String
    op_texts no_ops = ""
    op_texts (op_and op ops) = concat (" | " ∷ pipeline_op op ∷ op_texts ops ∷ [])

    pub pipeline_op : PipelineOp → String
    pipeline_op (filter e _) = concat ("filter(" ∷ expr_indented e 0 ∷ ")" ∷ [])
    pipeline_op (map_op e _) = concat ("map(" ∷ expr_indented e 0 ∷ ")" ∷ [])
    pipeline_op (sort_op by desc _) =
        concat
          ("sort(by: " ∷ expr_indented by 0 ∷ " " ∷ (if desc then "desc" else "asc") ∷ ")" ∷ [])
    pipeline_op (limit count _) = concat ("limit(" ∷ expr_indented count 0 ∷ ")" ∷ [])
    pipeline_op (skip count _) = concat ("skip(" ∷ expr_indented count 0 ∷ ")" ∷ [])
    pipeline_op (reverse_op _) = "reverse()"
    pipeline_op (flatten_op _) = "flatten()"
    pipeline_op (count_op _) = "count()"
    pipeline_op (unique by _) = concat ("unique(" ∷ opt_text "by: " by ∷ ")" ∷ [])
    pipeline_op (sum_op by _) = concat ("sum(" ∷ opt_text "by: " by ∷ ")" ∷ [])

  unfoldable pub expr_text : Expr → String
  expr_text e = expr_indented e 0
