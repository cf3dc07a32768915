-- ===== src/Syntax/Ast.antt =====
-- crates/hale-syntax/src/ast.rs: the surface syntax. Expressions and statements hold one another,
-- so each list, option or record inside that knot is a data type of its own. An `f64` is
-- its 64-bit pattern.
use tired.Prelude.{ℕ, Bool, String, Option}
use tired.Syntax.Span.{Span, Name}

-- An `i64`; `negsuc n` is -(n + 1).
pub data ℤ : Type 0 where
  pos : ℕ → ℤ
  negsuc : ℕ → ℤ

mutual
  pub data TypeExpr : Type 0 where
    named : String → TypeExpr
    optional : TypeExpr → TypeExpr
    array_of : TypeExpr → TypeExpr
    generic : String → TypeExprs → TypeExpr
    union : TypeExprs → TypeExpr

  pub data TypeExprs : Type 0 where
    no_types : TypeExprs
    type_and : TypeExpr → TypeExprs → TypeExprs

mutual
  pub data Pattern : Type 0 where
    wildcard : Span → Pattern
    binding : Name → Pattern
    ctor : Name → Patterns → Span → Pattern

  pub data Patterns : Type 0 where
    no_patterns : Patterns
    pattern_and : Pattern → Patterns → Patterns

pub data UnOp : Type 0 where
  not_op neg : UnOp

pub data BinOp : Type 0 where
  add sub mul eq_op ne_op lt_op le_op gt_op ge_op and_op or_op : BinOp

-- `Binding`: the name behind `->`, with its annotation.
pub record Bind : Type 0 where
  pub name : Name
  pub ty : Option TypeExpr

mutual
  pub data Expr : Type 0 where
    int : ℤ → Span → Expr
    float : ℕ → Span → Expr
    bool : Bool → Span → Expr
    null : Span → Expr
    duration : ℕ → Span → Expr
    str : StrParts → Span → Expr
    ident env_var implicit_field : Name → Expr
    field : Expr → Name → Span → Expr
    call : Expr → Exprs → Span → Expr
    unary : UnOp → Expr → Span → Expr
    binary : BinOp → Expr → Expr → Span → Expr
    record_of : Option Name → Fields → Span → Expr
    array : Exprs → Span → Expr
    spread : Expr → Span → Expr
    lambda : Name → Expr → Span → Expr
    match_on : MatchExpr → Expr
    range : Expr → Expr → Span → Expr

  pub data StrParts : Type 0 where
    no_parts : StrParts
    lit : String → StrParts → StrParts
    interp : Expr → StrParts → StrParts

  pub data Exprs : Type 0 where
    no_exprs : Exprs
    expr_and : Expr → Exprs → Exprs

  pub data Fields : Type 0 where
    no_fields : Fields
    field_and : Name → Expr → Fields → Fields

  pub data OptExpr : Type 0 where
    absent : OptExpr
    present : Expr → OptExpr

  pub data MatchExpr : Type 0 where
    match_expr : Expr → MatchArms → Span → MatchExpr

  pub data MatchArms : Type 0 where
    no_arms : MatchArms
    arm_and : Pattern → ArmBody → Span → MatchArms → MatchArms

  pub data ArmBody : Type 0 where
    value_arm : Expr → ArmBody
    block_arm : Block → ArmBody
    retry_arm : Effects → Span → ArmBody

  pub data Effects : Type 0 where
    no_effects : Effects
    call_effect wait_effect : Expr → Effects → Effects

  pub data Block : Type 0 where
    block : Stmts → Span → Block

  pub data Stmts : Type 0 where
    no_stmts : Stmts
    stmt_and : Stmt → Stmts → Stmts

  pub data Stmt : Type 0 where
    fetch_stmt : FetchStmt → Stmt
    let_stmt : Name → Expr → Span → Stmt
    log_stmt : Expr → Span → Stmt
    parallel : Block → Span → Stmt
    for_each : Name → Expr → Block → Span → Stmt
    return_stmt : OptExpr → Span → Stmt
    assert_stmt : Expr → Span → Stmt
    using_mock : Name → Span → Stmt
    expr_stmt : Expr → Option Bind → Span → Stmt

  -- The fields in the source's order: method, endpoint, path, params, body, idempotency key,
  -- pipeline, bind, span.
  pub data FetchStmt : Type 0 where
    fetch :
        String
        → Name
        → PathPattern
        → Fields
        → OptExpr
        → OptExpr
        → PipelineOps
        → Option Bind
        → Span
        → FetchStmt

  -- `PathPattern`
  pub data PathPattern : Type 0 where
    path : PathSegs → Span → PathPattern

  pub data PathSegs : Type 0 where
    no_segs : PathSegs
    literal_and : String → PathSegs → PathSegs
    param_and : Expr → PathSegs → PathSegs

  pub data PipelineOps : Type 0 where
    no_ops : PipelineOps
    op_and : PipelineOp → PipelineOps → PipelineOps

  pub data PipelineOp : Type 0 where
    filter map_op : Expr → Span → PipelineOp
    sort_op : Expr → Bool → Span → PipelineOp
    limit skip : Expr → Span → PipelineOp
    reverse_op : Span → PipelineOp
    unique : OptExpr → Span → PipelineOp
    flatten_op count_op : Span → PipelineOp
    sum_op : OptExpr → Span → PipelineOp
