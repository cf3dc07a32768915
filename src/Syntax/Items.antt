-- ===== src/Syntax/Items.antt =====
-- crates/hale-syntax/src/ast.rs: the declarations of a program.
use tired.Prelude.{ℕ, Bool, String, Option, List, [], ◌∷◌}
use tired.Syntax.Span.{Span, Name}
use tired.Syntax.Ast.{
  Expr, TypeExpr, BinOp, Block, Stmt, Stmts, PathPattern, no_stmts, stmt_and, block,
}

-- The declared bounds of a `flow` or a `route`.
pub record Budget : Type 0 where
  pub requests : Option ℕ
  pub parallel : Option ℕ
  pub hops : Option ℕ
  pub p99_ms : Option ℕ
  pub span : Span

pub record Setting : Type 0 where
  pub key : Name
  pub values : List Expr
  pub span : Span

pub record EndpointDecl : Type 0 where
  pub name : Name
  pub settings : List Setting
  pub span : Span

pub data ConstraintSubject : Type 0 where
  value_subject length_subject : ConstraintSubject

pub data Constraint : Type 0 where
  cmp : ConstraintSubject → BinOp → Expr → Constraint
  in_range : ConstraintSubject → Expr → Expr → Constraint

pub record FieldDecl : Type 0 where
  pub name : Name
  pub ty : TypeExpr
  pub constraint : Option Constraint
  pub span : Span

pub record TypeDecl : Type 0 where
  pub is_contract : Bool
  pub name : Name
  pub fields : List FieldDecl
  pub span : Span

pub record Param : Type 0 where
  pub name : Name
  pub ty : TypeExpr

pub record FlowDecl : Type 0 where
  pub name : Name
  pub params : List Param
  pub ret : Option TypeExpr
  pub budget : Option Budget
  pub body : Block
  pub span : Span

pub record MockRoute : Type 0 where
  pub method : Name
  pub path : PathPattern
  pub response : Expr
  pub span : Span

pub record MockDecl : Type 0 where
  pub name : Name
  pub routes : List MockRoute
  pub span : Span

pub record TestDecl : Type 0 where
  pub description : String
  pub body : Block
  pub span : Span

pub record ServerRoute : Type 0 where
  pub method : Name
  pub path : PathPattern
  pub budget : Option Budget
  pub handler : Block
  pub span : Span

pub record ServerDecl : Type 0 where
  pub name : Name
  pub settings : List Setting
  pub routes : List ServerRoute
  pub span : Span

pub data Item : Type 0 where
  endpoint_item : EndpointDecl → Item
  type_item : TypeDecl → Item
  flow_item : FlowDecl → Item
  mock_item : MockDecl → Item
  test_item : TestDecl → Item
  server_item : ServerDecl → Item
  stmt_item : Stmt → Item

pub record Program : Type 0 where
  pub items : List Item

-- `block.stmts`, in the tree's own list.
unfoldable pub stmts_of : Block → Stmts
stmts_of (block ss _) = ss

unfoldable pub to_stmts : List Stmt → Stmts
to_stmts [] = no_stmts
to_stmts (s ∷ ss) = stmt_and s (to_stmts ss)
