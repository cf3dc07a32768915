-- ===== src/Compiler/Lower/Nodes.antt =====
-- `lower_stmts`, `lower_stmt`, `lower_match` and `push` of crates/hale-compiler/src/lower.rs. The list
-- `nodes` is the vector that the functions push to.
use tired.Prelude.{
  String, List, [], ◌∷◌, ◌++◌, Bool, true, false, not, Option, none, some, length, str_eq,
  insert_all, remove,
}
use tired.Syntax.Span.{Span}
use tired.Syntax.Ast
use tired.Syntax.Ast.{
  Bind, TypeExpr, named, generic, optional, array_of, union, Expr, Fields, no_fields, field_and,
  OptExpr, absent, present, PipelineOps, no_ops, op_and, PipelineOp, MatchExpr, match_expr,
  MatchArms, no_arms, arm_and, ArmBody, value_arm, block_arm, retry_arm, Block, block, Stmts,
  no_stmts, stmt_and, Stmt, fetch_stmt, let_stmt, log_stmt, parallel, for_each, return_stmt,
  assert_stmt, using_mock, expr_stmt, FetchStmt, match_on,
}
use tired.Compiler.Ir
use tired.Compiler.Ir.{Node, Body, NodeKind, FetchIr, Arms, ArmBodyIr, store}
use tired.Compiler.Deps.{compute_deps}
use tired.Compiler.Lower.FreeVars.{
  free_vars, free_vars_of, path_vars, fields_vars, opt_vars, ops_vars,
}
use tired.Compiler.Lower.Scope.{body_external_reads, body_can_return, arms_external_reads}

unfoldable pub field_list : Fields → List (String × Expr)
field_list no_fields = []
field_list (field_and k v fs) = (k.node, v) ∷ field_list fs

unfoldable pub op_list : PipelineOps → List PipelineOp
op_list no_ops = []
op_list (op_and op ops) = op ∷ op_list ops

unfoldable pub opt_expr : OptExpr → Option Expr
opt_expr absent = none
opt_expr (present e) = some e

abbrev pub bind_name : Option Bind → Option String
bind_name none = none
bind_name (some b) = some b.name.node

abbrev pub bind_type : Option Bind → Option TypeExpr
bind_type none = none
bind_type (some b) = b.ty

-- `matches!(…, Some(TypeExpr::Generic(n, _)) if n == "Result")`
unfoldable pub is_result_type : Option TypeExpr → Bool
is_result_type (some (generic n _)) = str_eq n "Result"
is_result_type _ = false

-- `push` of a kind that is no `match` expression.
unfoldable pub push : List Node → NodeKind → Option String → List String → Bool → Span → List Node
push nodes kind bound reads effect sp =
    nodes
    ++ record {
      id = length nodes;
      kind = kind;
      binding = bound;
      reads = reads;
      deps = [];
      effect = effect;
      live = true;
      span = sp;
    }
      ∷ []

-- The end of `lower_stmts`, behind its loop.
unfoldable pub finish : List Node → Body
finish nodes = record { nodes = compute_deps nodes; waves = [] }

unfoldable pub lower_fetch : FetchStmt → List Node → List Node
unfolding push field_list op_list opt_expr is_result_type
lower_fetch (Ast.fetch method endpoint p params payload key ops bind sp) nodes =
    let reads =
      ops_vars ops (opt_vars key (opt_vars payload (fields_vars params (path_vars p [])))) in
    let f : FetchIr = record {
      method = method;
      endpoint = endpoint.node;
      endpoint_span = endpoint.span;
      path = p;
      params = field_list params;
      body = opt_expr payload;
      idempotency_key = opt_expr key;
      latency_ms = none;
      batch = none;
      pipeline = op_list ops;
      as_result = is_result_type (bind_type bind);
      contract_ty = bind_type bind;
    } in
    push nodes (Ir.fetch f) (bind_name bind) reads (not (str_eq method "GET")) sp

unfoldable mutual
  unfolding push finish lower_fetch opt_expr

  -- The loop of `lower_stmts`.
  pub push_stmts : Stmts → List Node → List Node
  push_stmts no_stmts nodes = nodes
  push_stmts (stmt_and s ss) nodes = push_stmts ss (lower_stmt s nodes)

  -- `lower_stmts(&block.stmts)`
  pub lower_block : Block → Body
  lower_block (block ss _) = finish (push_stmts ss [])

  pub push_block : Block → List Node → List Node
  push_block (block ss _) nodes = push_stmts ss nodes

  pub lower_stmt : Stmt → List Node → List Node
  lower_stmt (using_mock _ _) nodes = nodes
  lower_stmt (parallel b _) nodes = push_block b nodes
  lower_stmt (for_each var iter b sp) nodes =
      let inner = lower_block b in
      let external = remove var.node (body_external_reads inner) in
      push nodes (Ir.for_each var.node iter (store inner) (body_can_return (store inner)) sp) none
        (insert_all external (free_vars_of iter)) true sp
  lower_stmt (fetch_stmt f) nodes = lower_fetch f nodes
  lower_stmt (let_stmt name e sp) nodes =
      push nodes (Ir.let_node e) (some name.node) (free_vars_of e) false sp
  lower_stmt (log_stmt e sp) nodes = push nodes (Ir.log e) none (free_vars_of e) true sp
  lower_stmt (return_stmt e sp) nodes =
      push nodes (Ir.return_node (opt_expr e)) none (opt_vars e []) true sp
  lower_stmt (assert_stmt e sp) nodes = push nodes (Ir.assert_node e) none (free_vars_of e) true sp
  lower_stmt (expr_stmt e bind sp) nodes = push_expr e (bind_name bind) sp nodes

  -- `push` of `NodeKind::Expr`: a `match` becomes a node of its own kind.
  pub push_expr : Expr → Option String → Span → List Node → List Node
  push_expr (match_on m) bound sp nodes = push_match m bound sp nodes
  push_expr e bound sp nodes = push nodes (Ir.expr e) bound (free_vars_of e) true sp

  -- `lower_match`, and the reads that `push` collects for it.
  pub push_match : MatchExpr → Option String → Span → List Node → List Node
  push_match (match_expr scrutinee arms m_span) bound sp nodes =
      let ir_arms = lower_arms arms in
      push nodes (Ir.match_node scrutinee ir_arms m_span) bound
        (arms_external_reads ir_arms (free_vars scrutinee [])) true sp

  pub lower_arms : MatchArms → Arms
  lower_arms no_arms = Ir.no_arms
  lower_arms (arm_and p b _ arms) = Ir.arm_and p (lower_arm b) (lower_arms arms)

  pub lower_arm : ArmBody → ArmBodyIr
  lower_arm (value_arm e) = Ir.value e
  lower_arm (block_arm b) = Ir.body (store (lower_block b))
  lower_arm (retry_arm effects _) = Ir.retry effects

unfoldable pub lower_stmts : Stmts → Body
unfolding push_stmts finish
lower_stmts ss = finish (push_stmts ss [])
