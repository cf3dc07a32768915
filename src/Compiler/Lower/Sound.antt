-- ===== src/Compiler/Lower/Sound.antt =====
-- What lowering promises of every body, nested ones included.
use tired.Prelude.{
  ℕ, zero, suc, ◌+◌, String, List, [], ◌∷◌, ◌++◌, Bool, true, false, not, Option, none, some,
  length, All, ◌≡◌, refl, arith, get_elem?, str_eq,
}
use tired.Syntax.Span.{Span}
use tired.Syntax.Ast
use tired.Syntax.Ast.{
  Expr, MatchExpr, match_expr, MatchArms, no_arms, arm_and, ArmBody, value_arm, block_arm,
  retry_arm, Block, block, Stmts, no_stmts, stmt_and, Stmt, fetch_stmt, let_stmt, log_stmt,
  parallel, for_each, return_stmt, assert_stmt, using_mock, expr_stmt, FetchStmt, match_on,
}
use tired.Compiler.Ir
use tired.Compiler.Ir.{Node, Body, NodeKind, FetchIr}
use tired.Compiler.Ir.Deep.{Deep, DeepKind, DeepArms, DeepArm, DeepStored-store}
use tired.Compiler.Deps.{Seen, deps_from, compute_deps}
use tired.Compiler.Deps.Wired.{IsWired, IsNumbered, compute_deps-IsWired}
use tired.Compiler.Lower.Nodes.{
  push, finish, lower_fetch, push_stmts, lower_block, lower_stmts, push_block, lower_stmt,
  push_expr, push_match, lower_arms, lower_arm,
}

-- The effect flag of a node before optimization, with a condition on requests: a request is an effect
-- exactly if it is no GET, a `let` is none, everything else is one, and there is no scatter.
abbrev pub RuleWith : (FetchIr → Type 0) → NodeKind → Bool → Type 0
RuleWith L (Ir.fetch f) e = (e ≡ not (str_eq f.method "GET")) × L f
RuleWith L (Ir.let_node _) e = e ≡ false
RuleWith L (Ir.scatter _) e = ⊥
RuleWith L _ e = e ≡ true

-- A request without a latency and a batch rule.
abbrev pub IsBare : FetchIr → Type 0
IsBare f = (f.latency_ms ≡ none) × (f.batch ≡ none)

abbrev pub NodeRule : NodeKind → Bool → Type 0
NodeRule = RuleWith IsBare

abbrev pub Follows : (NodeKind → Bool → Type 0) → List Node → Type 0
Follows rule ns = IsWired ns × All (λ n. rule n.kind n.effect) ns

abbrev pub IsLowered : List Node → Type 0
IsLowered = Follows NodeRule

-- What holds while the nodes are pushed.
record Grown (ns : List Node) : Type 0 where
  numbered : IsNumbered ns
  effects : All (λ n. NodeRule n.kind n.effect) ns
  below : All (λ n. DeepKind IsLowered n.kind) ns

All-snoc : (P : Node → Type 0) (ns : List Node) (n : Node) → All P ns → P n → All P (ns ++ n ∷ [])
All-snoc P [] n h p = (p, tt)
All-snoc P (m ∷ ns) n h p = (h.0, All-snoc P ns n h.1 p)

IsNumbered-snoc_from :
    (ns : List Node) (n : Node) (i : ℕ)
    → ((j : ℕ) (m : Node) → get_elem? ns j ≡ some m → m.id ≡ i + j)
    → n.id ≡ i + length ns
    → (j : ℕ) (m : Node) → get_elem? (ns ++ n ∷ []) j ≡ some m
    → m.id ≡ i + j
IsNumbered-snoc_from [] n i h e zero m q = let same : n ≡ m = cc in rw (← same) e
IsNumbered-snoc_from [] n i h e (suc j) m q = cc
IsNumbered-snoc_from (x ∷ ns) n i h e zero m q = h 0 m q
IsNumbered-snoc_from (x ∷ ns) n i h e (suc j) m q =
    let r =
      IsNumbered-snoc_from ns n (suc i) (λ k l s. let t = h (suc k) l s in omega arith)
        (omega arith) j m q in
    omega arith

IsNumbered-push :
    (ns : List Node) (k : NodeKind) (b : Option String) (r : List String) (e : Bool) (s : Span)
    → IsNumbered ns
    → IsNumbered (push ns k b r e s)
unfolding push
IsNumbered-push ns k b r e s h j m q =
    let t =
      IsNumbered-snoc_from ns _ 0 (λ i l u. let v = h i l u in omega arith) (omega arith) j m q in
    omega arith

Grown-push :
    (ns : List Node) (k : NodeKind) (b : Option String) (r : List String) (e : Bool) (s : Span)
    → Grown ns
    → NodeRule k e
    → DeepKind IsLowered k
    → Grown (push ns k b r e s)
unfolding push
Grown-push ns k b r e s h rule deep = record {
  numbered = IsNumbered-push ns k b r e s h.numbered;
  effects = All-snoc _ ns _ h.effects rule;
  below = All-snoc _ ns _ h.below deep;
}

All-deps_from :
    (P : NodeKind → Bool → Type 0) (i : ℕ) (seen : Seen) (ns : List Node)
    → All (λ n. P n.kind n.effect) ns
    → All (λ n. P n.kind n.effect) (deps_from i seen ns)
unfolding deps_from
All-deps_from P i seen [] h = tt
All-deps_from P i seen (n ∷ ns) h = (h.0, All-deps_from P (suc i) _ ns h.1)

pub All-compute_deps :
    (P : NodeKind → Bool → Type 0) (ns : List Node)
    → All (λ n. P n.kind n.effect) ns
    → All (λ n. P n.kind n.effect) (compute_deps ns)
unfolding compute_deps
All-compute_deps P ns h = All-deps_from P 0 _ ns h

Deep-finish : (ns : List Node) → Grown ns → Deep IsLowered (finish ns)
unfolding finish
Deep-finish ns h = record {
  here = (compute_deps-IsWired ns h.numbered, All-compute_deps NodeRule ns h.effects);
  below = All-compute_deps (λ k _. DeepKind IsLowered k) ns h.below;
}

Grown-nil : Grown []
Grown-nil = record { numbered = λ j n e. cc; effects = tt; below = tt }

Grown-lower_fetch : (f : FetchStmt) (ns : List Node) → Grown ns → Grown (lower_fetch f ns)
unfolding lower_fetch
Grown-lower_fetch (Ast.fetch method endpoint p params payload key ops bind sp) ns h =
    Grown-push ns _ _ _ _ sp h (refl, (refl, refl)) tt

mutual
  unfolding push_stmts

  Grown-push_stmts : (ss : Stmts) (ns : List Node) → Grown ns → Grown (push_stmts ss ns)
  Grown-push_stmts no_stmts ns h = h
  Grown-push_stmts (stmt_and s ss) ns h =
      Grown-push_stmts ss (lower_stmt s ns) (Grown-lower_stmt s ns h)

  Deep-lower_block_in : (b : Block) → Deep IsLowered (lower_block b)
  Deep-lower_block_in (block ss _) =
      Deep-finish (push_stmts ss []) (Grown-push_stmts ss [] Grown-nil)

  Grown-push_block : (b : Block) (ns : List Node) → Grown ns → Grown (push_block b ns)
  Grown-push_block (block ss _) ns h = Grown-push_stmts ss ns h

  Grown-lower_stmt : (s : Stmt) (ns : List Node) → Grown ns → Grown (lower_stmt s ns)
  Grown-lower_stmt (using_mock _ _) ns h = h
  Grown-lower_stmt (parallel b _) ns h = Grown-push_block b ns h
  Grown-lower_stmt (for_each var iter b sp) ns h =
      Grown-push ns _ _ _ true sp h refl
        (DeepStored-store IsLowered (lower_block b) (Deep-lower_block_in b))
  Grown-lower_stmt (fetch_stmt f) ns h = Grown-lower_fetch f ns h
  Grown-lower_stmt (let_stmt name e sp) ns h = Grown-push ns _ _ _ false sp h refl tt
  Grown-lower_stmt (log_stmt e sp) ns h = Grown-push ns _ _ _ true sp h refl tt
  Grown-lower_stmt (return_stmt e sp) ns h = Grown-push ns _ _ _ true sp h refl tt
  Grown-lower_stmt (assert_stmt e sp) ns h = Grown-push ns _ _ _ true sp h refl tt
  Grown-lower_stmt (expr_stmt e bind sp) ns h = Grown-push_expr e _ sp ns h

  Grown-push_expr :
      (e : Expr) (b : Option String) (s : Span) (ns : List Node)
      → Grown ns
      → Grown (push_expr e b s ns)
  Grown-push_expr (match_on m) b s ns h = Grown-push_match m b s ns h
  Grown-push_expr _ b s ns h = Grown-push ns _ b _ true s h refl tt

  Grown-push_match :
      (m : MatchExpr) (b : Option String) (s : Span) (ns : List Node)
      → Grown ns
      → Grown (push_match m b s ns)
  Grown-push_match (match_expr e arms _) b s ns h =
      Grown-push ns _ b _ true s h refl (Deep-lower_arms arms)

  Deep-lower_arms : (arms : MatchArms) → DeepArms IsLowered (lower_arms arms)
  Deep-lower_arms no_arms = tt
  Deep-lower_arms (arm_and _ b _ arms) = (Deep-lower_arm b, Deep-lower_arms arms)

  Deep-lower_arm : (b : ArmBody) → DeepArm IsLowered (lower_arm b)
  Deep-lower_arm (value_arm e) = tt
  Deep-lower_arm (block_arm b) = DeepStored-store IsLowered (lower_block b) (Deep-lower_block_in b)
  Deep-lower_arm (retry_arm _ _) = tt

-- In a lowered block and in every body nested in it, ids are positions and edges lead backwards; a
-- request is an effect exactly if it is no GET and has neither a latency nor a batch rule, a `let` is
-- no effect, and every other node is one.
pub lower_block-IsLowered : (b : Block) → Deep IsLowered (lower_block b)
lower_block-IsLowered b = Deep-lower_block_in b

-- The same of a list of statements.
pub lower_stmts-IsLowered : (ss : Stmts) → Deep IsLowered (lower_stmts ss)
unfolding lower_stmts push_stmts
lower_stmts-IsLowered ss = Deep-finish (push_stmts ss []) (Grown-push_stmts ss [] Grown-nil)
