-- ===== src/Compiler/Optimize/Wired.antt =====
-- The passes of crates/hale-compiler/src/optimize.rs keep a node list well-formed.
use tired.Prelude.{
  ℕ, ◌<◌, String, List, [], ◌∷◌, Option, none, some, ◌≡◌, subst, get_elem?, All, zero, suc, map,
}
use tired.Compiler.Ir
use tired.Compiler.Ir.{Node, Body, NodeKind}
use tired.Compiler.Deps.Wired.{IsWired, IsWired-pointwise, deps_of-some}
use tired.Compiler.Optimize.Liveness.{liveness}
use tired.Compiler.Optimize.Liveness.Correct.{liveness-Observed}
use tired.Compiler.Optimize.Dedup.{Rewrite, dedup_nodes, alias_node, alias_kind}
use tired.Compiler.Optimize.Dedup.Scan.{dedup_at, apply-none, rewritten, Outcome}

map-none :
    (f : Node → Node) (ns : List Node) (j : ℕ)
    → get_elem? ns j ≡ none
    → get_elem? (map f ns) j ≡ none
map-none f [] j e = e
map-none f (m ∷ ns) zero e = cc
map-none f (m ∷ ns) (suc j) e = map-none f ns j e

pub liveness-none :
    (b : Body) (j : ℕ) → get_elem? b.nodes j ≡ none → get_elem? (liveness b).nodes j ≡ none
unfolding liveness
liveness-none b j e = map-none _ b.nodes j e

-- Dead-request elimination keeps the ids of a well-formed body and its backward edges.
pub liveness-IsWired : (b : Body) → IsWired b.nodes → IsWired (liveness b).nodes
unfolding liveness
liveness-IsWired b w = IsWired-pointwise b.nodes _ (map-none _ b.nodes) (λ j n e.
    let (l, out, _) = liveness-Observed b j n w e in
    (
      _,
      out,
      w.numbered j n e,
      subst (All (λ d. d < j)) (deps_of-some b.nodes j n e) (w.backward j),
    ))

-- A rewritten node has one edge, or keeps its own.
alias_kind-backward :
    (k : NodeKind) (r : Rewrite) (n : Node) (j : ℕ)
    → n.id ≡ j
    → r.first < j
    → All (λ d. d < j) n.deps
    → ((alias_kind k r n).id ≡ j) × All (λ d. d < j) (alias_kind k r n).deps
unfolding alias_kind
alias_kind-backward (Ir.fetch f) r n j id lt back = (id, (lt, tt))
alias_kind-backward _ r n j id lt back = (id, back)

-- Deduplication keeps the ids of a well-formed list, and a reused request lies before its alias.
pub dedup_nodes-IsWired :
    (show_float : ℕ → String) (ns : List Node) → IsWired ns → IsWired (dedup_nodes show_float ns)
unfolding alias_node
dedup_nodes-IsWired show_float ns w =
    IsWired-pointwise ns _ (λ j e. unfold dedup_nodes in apply-none _ ns j e)
      (λ j n e.
        let (o, out, why) = dedup_at show_float ns w.numbered j n e in
        let back = subst (All (λ d. d < j)) (deps_of-some ns j n e) (w.backward j) in
        let (id, edges) = rewritten-backward j n o (w.numbered j n e) back why in
        (rewritten o n, out, id, edges))
  where
    rewritten-backward :
        (j : ℕ) (n : Node) (o : Option Rewrite)
        → n.id ≡ j
        → All (λ d. d < j) n.deps
        → Outcome show_float ns j n o
        → ((rewritten o n).id ≡ j) × All (λ d. d < j) (rewritten o n).deps
    rewritten-backward j n none id back why = (id, back)
    rewritten-backward j n (some r) id back (_, _, _, _, lt, _, _) =
        alias_kind-backward n.kind r n j id lt back
