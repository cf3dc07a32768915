-- ===== src/Compiler/Ir/Depth.antt =====
-- How deep the bodies of match arms and loops stand in one another.
use tired.Prelude.{ℕ, suc, max, ◌≤◌, List, [], ◌∷◌, ◌≡◌, refl, ap, All, arith}
use tired.Compiler.Ir
use tired.Compiler.Ir.{
  Node, NodeKind, Arms, ArmBodyIr, Stored, StoredNodes, stored, no_nodes, node_and, load_nodes,
  store_nodes,
}

-- How deep bodies stand in one another: the recursion of `optimize_body` goes as far.
unfoldable mutual
  pub stored_depth : Stored → ℕ
  stored_depth (stored ns _) = suc (nodes_depth ns)

  pub nodes_depth : StoredNodes → ℕ
  nodes_depth no_nodes = 0
  nodes_depth (node_and _ k _ _ _ _ _ _ ns) = max (kind_depth k) (nodes_depth ns)

  pub kind_depth : NodeKind → ℕ
  kind_depth (Ir.match_node _ arms _) = arms_depth arms
  kind_depth (Ir.for_each _ _ b _ _) = stored_depth b
  kind_depth _ = 0

  pub arms_depth : Arms → ℕ
  arms_depth Ir.no_arms = 0
  arms_depth (Ir.arm_and _ b arms) = max (arm_depth b) (arms_depth arms)

  pub arm_depth : ArmBodyIr → ℕ
  arm_depth (Ir.body b) = stored_depth b
  arm_depth (Ir.value _) = 0
  arm_depth (Ir.retry _) = 0

unfoldable pub list_depth : List Node → ℕ
list_depth [] = 0
list_depth (n ∷ ns) = max (kind_depth n.kind) (list_depth ns)

pub list_depth-load_nodes : (ns : StoredNodes) → list_depth (load_nodes ns) ≡ nodes_depth ns
unfolding list_depth nodes_depth load_nodes
list_depth-load_nodes no_nodes = refl
list_depth-load_nodes (node_and _ k _ _ _ _ _ _ ns) =
    ap (λ d. max (kind_depth k) d) (list_depth-load_nodes ns)

pub nodes_depth-store_nodes : (ns : List Node) → nodes_depth (store_nodes ns) ≡ list_depth ns
unfolding list_depth nodes_depth store_nodes
nodes_depth-store_nodes [] = refl
nodes_depth-store_nodes (n ∷ ns) = ap (λ d. max (kind_depth n.kind) d) (nodes_depth-store_nodes ns)

pub list_depth-le :
    (d : ℕ) (ns : List Node) → All (λ n. kind_depth n.kind ≤ d) ns → list_depth ns ≤ d
unfolding list_depth
list_depth-le d [] h = omega arith
list_depth-le d (n ∷ ns) h = let q = h.0 in omega (arith, list_depth-le d ns h.1)

pub All-of_list_depth :
    (d : ℕ) (ns : List Node) → list_depth ns ≤ d → All (λ n. kind_depth n.kind ≤ d) ns
unfolding list_depth
All-of_list_depth d [] h = tt
All-of_list_depth d (n ∷ ns) h = (omega arith, All-of_list_depth d ns (omega arith))
