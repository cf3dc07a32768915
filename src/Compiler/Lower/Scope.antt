-- ===== src/Compiler/Lower/Scope.antt =====
-- What a nested body reads from outside, and whether it can return: the last part of
-- crates/hale-compiler/src/lower.rs.
use tired.Prelude.{
  String, List, [], ◌∷◌, Bool, true, false, ◌||◌, Option, none, some, insert, insert_all,
  remove_all,
}
use tired.Compiler.Ir.{
  Node, Body, NodeKind, Arms, ArmBodyIr, Stored, StoredNodes, return_node, match_node, for_each,
  no_arms, arm_and, value, body, retry, stored, no_nodes, node_and, load,
}
use tired.Syntax.Ast.{Pattern}
use tired.Compiler.Lower.FreeVars.{free_vars, effects_vars, pattern_binds}

-- The loops `for r in &n.reads` and `if let Some(b) = &n.binding` over the nodes.
unfoldable pub all_reads : List Node → List String → List String
all_reads [] s = s
all_reads (n ∷ ns) s = all_reads ns (insert_all n.reads s)

abbrev pub insert_binding : Option String → List String → List String
insert_binding none s = s
insert_binding (some b) s = insert b s

unfoldable pub all_binds : List Node → List String → List String
all_binds [] s = s
all_binds (n ∷ ns) s = all_binds ns (insert_binding n.binding s)

unfoldable pub body_external_reads : Body → List String
unfolding all_reads all_binds
body_external_reads b = remove_all (all_binds b.nodes []) (all_reads b.nodes [])

unfoldable mutual
  pub body_can_return : Stored → Bool
  body_can_return (stored ns _) = nodes_can_return ns

  pub nodes_can_return : StoredNodes → Bool
  nodes_can_return no_nodes = false
  nodes_can_return (node_and _ k _ _ _ _ _ _ ns) = kind_can_return k || nodes_can_return ns

  pub kind_can_return : NodeKind → Bool
  kind_can_return (return_node _) = true
  kind_can_return (for_each _ _ _ returns _) = returns
  kind_can_return (match_node _ arms _) = arms_can_return arms
  kind_can_return _ = false

  pub arms_can_return : Arms → Bool
  arms_can_return no_arms = false
  arms_can_return (arm_and _ b arms) = arm_can_return b || arms_can_return arms

  pub arm_can_return : ArmBodyIr → Bool
  arm_can_return (body b) = body_can_return b
  arm_can_return (value _) = false
  arm_can_return (retry _) = false

-- `inner` of `arm_external_reads`, before the names of the pattern are removed.
unfoldable pub arm_inner_reads : ArmBodyIr → List String
unfolding all_reads all_binds body_external_reads
arm_inner_reads (value e) = free_vars e []
arm_inner_reads (retry effects) = effects_vars effects []
arm_inner_reads (body b) = body_external_reads (load b)

unfoldable pub arm_external_reads : Pattern → ArmBodyIr → List String → List String
unfolding arm_inner_reads
arm_external_reads p b out = insert_all (remove_all (pattern_binds p) (arm_inner_reads b)) out

unfoldable pub arms_external_reads : Arms → List String → List String
arms_external_reads no_arms out = out
arms_external_reads (arm_and p b arms) out = arms_external_reads arms (arm_external_reads p b out)
