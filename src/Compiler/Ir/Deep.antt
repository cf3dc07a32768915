-- ===== src/Compiler/Ir/Deep.antt =====
-- A statement about the node list of a body and of every body nested in it.
use tired.Prelude.{List, [], ◌∷◌, All, ◌≡◌, refl, ap, sym, subst}
use tired.Compiler.Ir.{
  load, Node, Body, NodeKind, Arms, ArmBodyIr, Stored, StoredNodes, match_node, for_each, no_arms,
  arm_and, body, stored, no_nodes, node_and, load_nodes, store_nodes, store,
}

abbrev mutual
  pub DeepKind : (List Node → Type 0) → NodeKind → Type 0
  DeepKind P (match_node _ arms _) = DeepArms P arms
  DeepKind P (for_each _ _ b _ _) = DeepStored P b
  DeepKind P _ = Unit

  pub DeepArms : (List Node → Type 0) → Arms → Type 0
  DeepArms P no_arms = Unit
  DeepArms P (arm_and _ b arms) = DeepArm P b × DeepArms P arms

  pub DeepArm : (List Node → Type 0) → ArmBodyIr → Type 0
  DeepArm P (body b) = DeepStored P b
  DeepArm P _ = Unit

  pub DeepStored : (List Node → Type 0) → Stored → Type 0
  DeepStored P (stored ns _) = P (load_nodes ns) × DeepNodes P ns

  pub DeepNodes : (List Node → Type 0) → StoredNodes → Type 0
  DeepNodes P no_nodes = Unit
  DeepNodes P (node_and _ k _ _ _ _ _ _ ns) = DeepKind P k × DeepNodes P ns

-- The statement holds of the body itself and of every body below it.
pub record Deep (P : List Node → Type 0) (b : Body) : Type 0 where
  pub here : P b.nodes
  pub below : All (λ n. DeepKind P n.kind) b.nodes

load_nodes-store_nodes : (ns : List Node) → load_nodes (store_nodes ns) ≡ ns
unfolding load_nodes store_nodes
load_nodes-store_nodes [] = refl
load_nodes-store_nodes (n ∷ ns) = ap (λ r. n ∷ r) (load_nodes-store_nodes ns)

DeepNodes-store_nodes :
    (P : List Node → Type 0) (ns : List Node)
    → All (λ n. DeepKind P n.kind) ns
    → DeepNodes P (store_nodes ns)
unfolding store_nodes
DeepNodes-store_nodes P [] h = tt
DeepNodes-store_nodes P (n ∷ ns) h = (h.0, DeepNodes-store_nodes P ns h.1)

pub DeepStored-store : (P : List Node → Type 0) (b : Body) → Deep P b → DeepStored P (store b)
unfolding store
DeepStored-store P b h =
    (subst P (sym (load_nodes-store_nodes b.nodes)) h.here, DeepNodes-store_nodes P b.nodes h.below)

DeepNodes-load :
    (P : List Node → Type 0) (ns : StoredNodes)
    → DeepNodes P ns
    → All (λ n. DeepKind P n.kind) (load_nodes ns)
unfolding load_nodes
DeepNodes-load P no_nodes h = tt
DeepNodes-load P (node_and _ k _ _ _ _ _ _ ns) h = (h.0, DeepNodes-load P ns h.1)

pub Deep-load : (P : List Node → Type 0) (s : Stored) → DeepStored P s → Deep P (load s)
unfolding load
Deep-load P (stored ns ws) h = record { here = h.0; below = DeepNodes-load P ns h.1 }

module _ {P Q : List Node → Type 0} (to : (ns : List Node) → P ns → Q ns) where
  mutual
    DeepKind-map : (k : NodeKind) → DeepKind P k → DeepKind Q k
    DeepKind-map (match_node _ arms _) h = DeepArms-map arms h
    DeepKind-map (for_each _ _ b _ _) h = DeepStored-map b h
    DeepKind-map _ h = tt

    DeepArms-map : (arms : Arms) → DeepArms P arms → DeepArms Q arms
    DeepArms-map no_arms h = tt
    DeepArms-map (arm_and _ b arms) h = (DeepArm-map b h.0, DeepArms-map arms h.1)

    DeepArm-map : (b : ArmBodyIr) → DeepArm P b → DeepArm Q b
    DeepArm-map (body b) h = DeepStored-map b h
    DeepArm-map _ h = tt

    DeepStored-map : (s : Stored) → DeepStored P s → DeepStored Q s
    DeepStored-map (stored ns _) h = (to (load_nodes ns) h.0, DeepNodes-map ns h.1)

    DeepNodes-map : (ns : StoredNodes) → DeepNodes P ns → DeepNodes Q ns
    DeepNodes-map no_nodes h = tt
    DeepNodes-map (node_and _ k _ _ _ _ _ _ ns) h = (DeepKind-map k h.0, DeepNodes-map ns h.1)

  below_map : (ns : List Node) → All (λ n. DeepKind P n.kind) ns → All (λ n. DeepKind Q n.kind) ns
  below_map [] h = tt
  below_map (n ∷ ns) h = (DeepKind-map n.kind h.0, below_map ns h.1)

  pub Deep-map : (b : Body) → Deep P b → Deep Q b
  Deep-map b h = record { here = to b.nodes h.here; below = below_map b.nodes h.below }
