-- ===== src/Compiler/Ir/Everywhere.antt =====
-- A statement about a body, its schedule included, and about every body nested in it.
use tired.Prelude.{List, [], ◌∷◌, All, sym, subst}
use tired.Compiler.Ir
use tired.Compiler.Ir.{
  Node, Body, NodeKind, Arms, ArmBodyIr, Stored, StoredNodes, stored, no_nodes, node_and,
  load_nodes, store_nodes, load, store, load-store,
}

abbrev mutual
  pub EverywhereKind : (Body → Type 0) → NodeKind → Type 0
  EverywhereKind P (Ir.match_node _ arms _) = EverywhereArms P arms
  EverywhereKind P (Ir.for_each _ _ b _ _) = EverywhereStored P b
  EverywhereKind P _ = Unit

  pub EverywhereArms : (Body → Type 0) → Arms → Type 0
  EverywhereArms P Ir.no_arms = Unit
  EverywhereArms P (Ir.arm_and _ b arms) = EverywhereArm P b × EverywhereArms P arms

  pub EverywhereArm : (Body → Type 0) → ArmBodyIr → Type 0
  EverywhereArm P (Ir.body b) = EverywhereStored P b
  EverywhereArm P _ = Unit

  pub EverywhereStored : (Body → Type 0) → Stored → Type 0
  EverywhereStored P (stored ns ws) =
      P (record { nodes = load_nodes ns; waves = ws }) × EverywhereNodes P ns

  pub EverywhereNodes : (Body → Type 0) → StoredNodes → Type 0
  EverywhereNodes P no_nodes = Unit
  EverywhereNodes P (node_and _ k _ _ _ _ _ _ ns) = EverywhereKind P k × EverywhereNodes P ns

pub record Everywhere (P : Body → Type 0) (b : Body) : Type 0 where
  pub here : P b
  pub below : All (λ n. EverywhereKind P n.kind) b.nodes

EverywhereNodes-store_nodes :
    (P : Body → Type 0) (ns : List Node)
    → All (λ n. EverywhereKind P n.kind) ns
    → EverywhereNodes P (store_nodes ns)
unfolding store_nodes
EverywhereNodes-store_nodes P [] h = tt
EverywhereNodes-store_nodes P (n ∷ ns) h = (h.0, EverywhereNodes-store_nodes P ns h.1)

pub EverywhereStored-store :
    (P : Body → Type 0) (b : Body) → Everywhere P b → EverywhereStored P (store b)
unfolding store load
EverywhereStored-store P b h =
    (subst P (sym (load-store b)) h.here, EverywhereNodes-store_nodes P b.nodes h.below)
