-- ===== src/Compiler/Optimize/Settled.antt =====
-- What the passes of crates/hale-compiler/src/optimize.rs keep of every node: its kind says whether it
-- is an effect, and the bodies nested in it are well-formed.
use tired.Prelude.{
  ℕ, Bool, true, false, not, String, List, [], ◌∷◌, Option, none, some, ◌≡◌, arith, str_eq, All,
}
use tired.Compiler.Ir
use tired.Syntax.Ast.{Expr}
use tired.Compiler.Ir.{Node, NodeKind, Body, FetchIr, ScatterIr}
use tired.Compiler.Deps.{compute_deps}
use tired.Compiler.Deps.Numbered.{All-pointwise, All-get_elem?}
use tired.Compiler.Deps.Wired.{IsWired}
use tired.Compiler.Lower.Sound.{RuleWith, All-compute_deps}
use tired.Compiler.Optimize.Dedup.{
  Rewrite, dedup_nodes, is_get, alias_kind, alias_node, node_sig, kind_sig,
}
use tired.Compiler.Optimize.Dedup.Scan.{dedup_at, apply-none, rewritten, Outcome}
use tired.Compiler.Optimize.Liveness.{liveness}
use tired.Compiler.Optimize.Liveness.Correct.{liveness-Observed}
use tired.Compiler.Optimize.Wired.{liveness-none}

-- As in a lowered block, with scatters, which are no effects.
abbrev pub IsSettled : NodeKind → Bool → Type 0
IsSettled (Ir.fetch f) e = e ≡ not (str_eq f.method "GET")
IsSettled (Ir.let_node _) e = e ≡ false
IsSettled (Ir.scatter _) e = e ≡ false
IsSettled _ e = e ≡ true

pub RuleWith-IsSettled :
    (L : FetchIr → Type 0) (k : NodeKind) (e : Bool) → RuleWith L k e → IsSettled k e
RuleWith-IsSettled L (Ir.fetch f) e h = h.0
RuleWith-IsSettled L (Ir.let_node _) e h = h
RuleWith-IsSettled L (Ir.scatter _) e h = absurd h
RuleWith-IsSettled L _ e h = h

abbrev pub IsReady : List Node → Type 0
IsReady ns = IsWired ns × All (λ n. IsSettled n.kind n.effect) ns

-- A predicate that holds of all kinds with no body inside.
pub record IsFlat (Q : NodeKind → Type 0) : Type 0 where
  pub fetch : (f : FetchIr) → Q (Ir.fetch f)
  pub let_node : (e : Expr) → Q (Ir.let_node e)
  pub scatter : (s : ScatterIr) → Q (Ir.scatter s)

-- A node whose kind fits its effect flag and satisfies a predicate.
abbrev pub Fits : (NodeKind → Type 0) → Node → Type 0
Fits Q n = IsSettled n.kind n.effect × Q n.kind

alias_kind-Fits :
    (show_float : ℕ → String) (Q : NodeKind → Type 0) (flat : IsFlat Q) (k : NodeKind) (r : Rewrite)
    (n : Node) (s : String)
    → kind_sig show_float k n.reads n.deps ≡ some s
    → IsSettled k n.effect
    → Fits Q (alias_kind k r n)
unfolding alias_kind kind_sig is_get
alias_kind-Fits show_float Q flat (Ir.fetch f) r n s e h = (ground arith, flat.let_node _)
alias_kind-Fits show_float Q flat _ r n s e h = cc e

rewritten-Fits :
    (show_float : ℕ → String) (Q : NodeKind → Type 0) (flat : IsFlat Q) (ns : List Node) (j : ℕ)
    (n : Node) (o : Option Rewrite)
    → Outcome show_float ns j n o
    → Fits Q n
    → Fits Q (rewritten o n)
unfolding alias_node node_sig
rewritten-Fits show_float Q flat ns j n none why h = h
rewritten-Fits show_float Q flat ns j n (some r) (s, _, _, sig, _, _, _) h =
    alias_kind-Fits show_float Q flat n.kind r n s sig h.0

pub dedup_nodes-Fits :
    (show_float : ℕ → String) (Q : NodeKind → Type 0) (flat : IsFlat Q) (ns : List Node)
    → IsWired ns
    → All (Fits Q) ns
    → All (Fits Q) (dedup_nodes show_float ns)
dedup_nodes-Fits show_float Q flat ns w h =
    All-pointwise (Fits Q) ns _ (λ j e. unfold dedup_nodes in apply-none _ ns j e)
      (λ j n e.
        let (o, out, why) = dedup_at show_float ns w.numbered j n e in
        (
          rewritten o n,
          out,
          rewritten-Fits show_float Q flat ns j n o why (All-get_elem? (Fits Q) ns j n h e),
        ))

pub liveness-Fits :
    (Q : NodeKind → Type 0) (b : Body)
    → IsWired b.nodes
    → All (Fits Q) b.nodes
    → All (Fits Q) (liveness b).nodes
liveness-Fits Q b w h = All-pointwise (Fits Q) b.nodes _ (liveness-none b) (λ j n e.
    let (l, out, _) = liveness-Observed b j n w e in
    (_, out, All-get_elem? (Fits Q) b.nodes j n h e))

-- New edges change neither kinds nor flags.
pub compute_deps-Fits :
    (Q : NodeKind → Type 0) (ns : List Node) → All (Fits Q) ns → All (Fits Q) (compute_deps ns)
compute_deps-Fits Q ns h = All-compute_deps (λ k e. IsSettled k e × Q k) ns h

pub Fits-IsSettled :
    (Q : NodeKind → Type 0) (ns : List Node)
    → All (Fits Q) ns
    → All (λ n. IsSettled n.kind n.effect) ns
Fits-IsSettled Q [] h = tt
Fits-IsSettled Q (n ∷ ns) h = (h.0.0, Fits-IsSettled Q ns h.1)

pub Fits-part : (Q : NodeKind → Type 0) (ns : List Node) → All (Fits Q) ns → All (λ n. Q n.kind) ns
Fits-part Q [] h = tt
Fits-part Q (n ∷ ns) h = (h.0.1, Fits-part Q ns h.1)

pub Fits-join :
    (Q : NodeKind → Type 0) (ns : List Node)
    → All (λ n. IsSettled n.kind n.effect) ns
    → All (λ n. Q n.kind) ns
    → All (Fits Q) ns
Fits-join Q [] h k = tt
Fits-join Q (n ∷ ns) h k = ((h.0, k.0), Fits-join Q ns h.1 k.1)
