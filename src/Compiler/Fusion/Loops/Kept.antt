-- ===== src/Compiler/Fusion/Loops/Kept.antt =====
-- What `fuse_loops` keeps of a list and of the bodies of its loops.
use tired.Prelude.{
  ℕ, zero, suc, ◌+◌, ◌-◌, ◌≤◌, String, List, [], ◌∷◌, ◌≡◌, refl, sym, ◌∙◌, ap, arith, All, inl, inr,
  Bool-cases, length, subst,
}
use tired.Syntax.Ast.{Expr}
use tired.Compiler.Ir
use tired.Compiler.Ir.{Node, NodeKind, Body, Stored, stored, load_nodes, load, store, store_nodes}
use tired.Compiler.Ir.Deep.{DeepKind, Deep, Deep-load, DeepStored-store}
use tired.Compiler.Ir.Depth.{
  kind_depth, list_depth, list_depth-le, list_depth-load_nodes, nodes_depth-store_nodes,
  All-of_list_depth,
}
use tired.Compiler.Deps.{compute_deps, recompute_deps}
use tired.Compiler.Deps.Numbered.{
  NumberedFrom, NumberedFrom-append, NumberedFrom-IsNumbered, NumberedFrom-of_IsNumbered,
  All-append, All-map, All-both,
}
use tired.Compiler.Deps.Wired.{IsWired, compute_deps-IsWired}
use tired.Compiler.Optimize.Dedup.{update}
use tired.Compiler.Optimize.Settled.{
  IsSettled, IsReady, IsFlat, Fits, compute_deps-Fits, Fits-IsSettled, Fits-part, Fits-join,
}
use tired.Compiler.Fusion.Loops.{
  LoopFusePlan, make_loop_batch_node, make_loop_scatter, scatter_all, batch_nodes, fuse_loop,
  kind_plans, place_kind, rebuild_loops, has_plans, fuse_loop_nodes,
}

NumberedFrom-update :
    (j i : ℕ) (f : Node → Node) (ns : List Node)
    → ((n : Node) → (f n).id ≡ n.id)
    → NumberedFrom j ns
    → NumberedFrom j (update i f ns)
unfolding update
NumberedFrom-update j i f [] same h = tt
NumberedFrom-update j zero f (n ∷ ns) same h = (same n ∙ h.0, h.1)
NumberedFrom-update j (suc i) f (n ∷ ns) same h = (h.0, NumberedFrom-update (suc j) i f ns same h.1)

All-update :
    (P : Node → Type 0) (i : ℕ) (f : Node → Node) (ns : List Node)
    → ((n : Node) → P (f n))
    → All P ns
    → All P (update i f ns)
unfolding update
All-update P i f [] new h = tt
All-update P zero f (n ∷ ns) new h = (new n, h.1)
All-update P (suc i) f (n ∷ ns) new h = (h.0, All-update P i f ns new h.1)

scatter_all-Numbered :
    (j seq : ℕ) (ps : List LoopFusePlan) (ns : List Node)
    → NumberedFrom j ns
    → NumberedFrom j (scatter_all seq ps ns)
unfolding scatter_all make_loop_scatter
scatter_all-Numbered j seq [] ns h = h
scatter_all-Numbered j seq (p ∷ ps) ns h =
    scatter_all-Numbered j (suc seq) ps _ (NumberedFrom-update j p.fetch_idx _ ns (λ n. refl) h)

scatter_all-Fits :
    (Q : NodeKind → Type 0) (flat : IsFlat Q) (seq : ℕ) (ps : List LoopFusePlan) (ns : List Node)
    → All (Fits Q) ns
    → All (Fits Q) (scatter_all seq ps ns)
unfolding scatter_all make_loop_scatter
scatter_all-Fits Q flat seq [] ns h = h
scatter_all-Fits Q flat seq (p ∷ ps) ns h =
    scatter_all-Fits Q flat (suc seq) ps _
      (All-update (Fits Q) p.fetch_idx _ ns (λ n. (refl, flat.scatter _)) h)

-- The nested bodies are well-formed, and nested to at most this depth.
abbrev pub Nested : ℕ → NodeKind → Type 0
Nested d k = DeepKind IsReady k × (kind_depth k ≤ d)

pub Nested-IsFlat : (d : ℕ) → IsFlat (Nested d)
unfolding kind_depth
Nested-IsFlat d = record {
  fetch = λ f. (tt, omega arith);
  let_node = λ e. (tt, omega arith);
  scatter = λ s. (tt, omega arith);
}

-- The rewritten body of a loop is as well-formed as the old one, and as deep at most.
fused_body :
    (d seq : ℕ) (ps : List LoopFusePlan) (ns : List Node) (ws : List (List ℕ))
    → IsReady ns
    → All (Fits (Nested d)) ns
    → Deep IsReady (record { nodes = recompute_deps (scatter_all seq ps ns); waves = ws })
      × (list_depth (recompute_deps (scatter_all seq ps ns)) ≤ d)
unfolding recompute_deps compute_deps
fused_body d seq ps ns ws ready fits =
    let out =
      compute_deps-Fits (Nested d) _
        (scatter_all-Fits (Nested d) (Nested-IsFlat d) seq ps ns fits) in
    let parts = Fits-part (Nested d) _ out in
    (
      record {
        here = (
          compute_deps-IsWired (scatter_all seq ps ns) (
              NumberedFrom-IsNumbered _ (
                scatter_all-Numbered 0 seq ps ns (NumberedFrom-of_IsNumbered ns ready.0.numbered))),
          Fits-IsSettled (Nested d) _ out,
        );
        below = All-map _ _ _ (λ n h. h.0) parts;
      },
      list_depth-le d _ (All-map _ _ _ (λ n h. h.1) parts),
    )

batch_nodes-Numbered :
    (at seq : ℕ) (var : String) (iter : Expr) (ps : List LoopFusePlan)
    → NumberedFrom at (batch_nodes at seq var iter ps)
unfolding batch_nodes make_loop_batch_node
batch_nodes-Numbered at seq var iter [] = tt
batch_nodes-Numbered at seq var iter (p ∷ ps) =
    (refl, batch_nodes-Numbered (suc at) (suc seq) var iter ps)

length-batch_nodes :
    (at seq : ℕ) (var : String) (iter : Expr) (ps : List LoopFusePlan)
    → length (batch_nodes at seq var iter ps) ≡ length ps
unfolding batch_nodes
length-batch_nodes at seq var iter [] = refl
length-batch_nodes at seq var iter (p ∷ ps) =
    ap suc (length-batch_nodes (suc at) (suc seq) var iter ps)

batch_nodes-Fits :
    (Q : NodeKind → Type 0) (flat : IsFlat Q) (at seq : ℕ) (var : String) (iter : Expr)
    (ps : List LoopFusePlan)
    → All (Fits Q) (batch_nodes at seq var iter ps)
unfolding batch_nodes make_loop_batch_node
batch_nodes-Fits Q flat at seq var iter [] = tt
batch_nodes-Fits Q flat at seq var iter (p ∷ ps) =
    ((refl, flat.fetch _), batch_nodes-Fits Q flat (suc at) (suc seq) var iter ps)

place_kind-Numbered :
    (at seq : ℕ) (n : Node) (k : NodeKind) (ps : List LoopFusePlan)
    → NumberedFrom at (place_kind at seq n k ps)
unfolding place_kind fuse_loop
place_kind-Numbered at seq n k [] = (refl, tt)
place_kind-Numbered at seq n (Ir.for_each var iter (stored ns ws) returns sp) (p ∷ ps) =
    NumberedFrom-append at (batch_nodes at seq var iter (p ∷ ps)) _
      (batch_nodes-Numbered at seq var iter (p ∷ ps))
      (ap (λ m. m + at) (sym (length-batch_nodes at seq var iter (p ∷ ps))), tt)
place_kind-Numbered at seq n _ (p ∷ ps) = (refl, tt)

rebuild_loops-Numbered : (at seq : ℕ) (ns : List Node) → NumberedFrom at (rebuild_loops at seq ns)
unfolding rebuild_loops
rebuild_loops-Numbered at seq [] = tt
rebuild_loops-Numbered at seq (n ∷ ns) =
    NumberedFrom-append at (place_kind at seq n n.kind (kind_plans n.kind)) _
      (place_kind-Numbered at seq n n.kind (kind_plans n.kind))
      (rebuild_loops-Numbered (length (place_kind at seq n n.kind (kind_plans n.kind)) + at)
        (length (kind_plans n.kind) + seq) ns)

place_kind-Fits :
    (d at seq : ℕ) (n : Node) (k : NodeKind) (ps : List LoopFusePlan)
    → n.kind ≡ k
    → Fits (Nested d) n
    → All (Fits (Nested d)) (place_kind at seq n k ps)
unfolding place_kind fuse_loop load store kind_depth
place_kind-Fits d at seq n k [] e h = (h, tt)
place_kind-Fits d at seq n (Ir.for_each var iter (stored ns ws) returns sp) (p ∷ ps) e h =
    let (rule, (deep, depth)) = subst (λ x. IsSettled x n.effect × Nested d x) e h in
    let inner = Deep-load IsReady (stored ns ws) deep in
    let low : list_depth (load_nodes ns) ≤ d - 1 = omega (arith, list_depth-load_nodes ns) in
    let fits =
      Fits-join (Nested (d - 1)) (load_nodes ns) inner.here.1
        (All-both _ _ _ inner.below (All-of_list_depth (d - 1) _ low)) in
    let fused = recompute_deps (scatter_all seq (p ∷ ps) (load_nodes ns)) in
    let (new, low') = fused_body (d - 1) seq (p ∷ ps) (load_nodes ns) ws inner.here fits in
    All-append (Fits (Nested d)) (batch_nodes at seq var iter (p ∷ ps)) _
      (batch_nodes-Fits (Nested d) (Nested-IsFlat d) at seq var iter (p ∷ ps))
      (
        (
          rule,
          (
            DeepStored-store IsReady (record { nodes = fused; waves = ws }) new,
            omega (arith, nodes_depth-store_nodes fused),
          ),
        ),
        tt,
      )
place_kind-Fits d at seq n _ (p ∷ ps) e h = (h, tt)

rebuild_loops-Fits :
    (d at seq : ℕ) (ns : List Node)
    → All (Fits (Nested d)) ns
    → All (Fits (Nested d)) (rebuild_loops at seq ns)
unfolding rebuild_loops
rebuild_loops-Fits d at seq [] h = tt
rebuild_loops-Fits d at seq (n ∷ ns) h =
    All-append (Fits (Nested d)) (place_kind at seq n n.kind (kind_plans n.kind)) _
      (place_kind-Fits d at seq n n.kind (kind_plans n.kind) refl h.0)
      (rebuild_loops-Fits d (length (place_kind at seq n n.kind (kind_plans n.kind)) + at)
        (length (kind_plans n.kind) + seq) ns h.1)

-- Loop fusion keeps a list well-formed.
pub fuse_loop_nodes-IsWired :
    (seq : ℕ) (ns : List Node) → IsWired ns → IsWired (fuse_loop_nodes seq ns)
unfolding fuse_loop_nodes recompute_deps compute_deps
fuse_loop_nodes-IsWired seq ns w = elim (Bool-cases (has_plans ns)) [
  | inl e ↦
      rw e (compute_deps-IsWired _ (NumberedFrom-IsNumbered _ (rebuild_loops-Numbered 0 seq ns)))
  | inr e ↦ rw e w
]

-- Loop fusion keeps kinds and effect flags in agreement, and the bodies of the loops well-formed and
-- no deeper than they were.
pub fuse_loop_nodes-Fits :
    (d seq : ℕ) (ns : List Node)
    → All (Fits (Nested d)) ns
    → All (Fits (Nested d)) (fuse_loop_nodes seq ns)
unfolding fuse_loop_nodes recompute_deps compute_deps
fuse_loop_nodes-Fits d seq ns h = elim (Bool-cases (has_plans ns)) [
  | inl e ↦ rw e (compute_deps-Fits (Nested d) _ (rebuild_loops-Fits d 0 seq ns h))
  | inr e ↦ rw e h
]
