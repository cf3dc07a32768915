-- ===== src/Compiler/Lower/Annotate.antt =====
-- `annotate_latency` and `annotate_batch` of crates/hale-compiler/src/lower.rs: both change every
-- request of a body, those in match arms and loops included.
pub mod Stamped
use tired.Prelude.{ℕ, String, List, [], ◌∷◌, Option, none, some, map, lookup, str_eq, if◌then◌else◌}
use tired.Compiler.Ir
use tired.Compiler.Ir.{
  Node, NodeKind, FetchIr, Arms, ArmBodyIr, Stored, StoredNodes, stored, no_nodes, node_and, Body,
}

module _ (change : FetchIr → FetchIr) where
  unfoldable mutual
    pub on_kind : NodeKind → NodeKind
    on_kind (Ir.fetch f) = Ir.fetch (change f)
    on_kind (Ir.match_node e arms sp) = Ir.match_node e (on_arms arms) sp
    on_kind (Ir.for_each v e b r sp) = Ir.for_each v e (on_stored b) r sp
    on_kind k = k

    pub on_arms : Arms → Arms
    on_arms Ir.no_arms = Ir.no_arms
    on_arms (Ir.arm_and p b arms) = Ir.arm_and p (on_arm b) (on_arms arms)

    pub on_arm : ArmBodyIr → ArmBodyIr
    on_arm (Ir.body b) = Ir.body (on_stored b)
    on_arm b = b

    pub on_stored : Stored → Stored
    on_stored (stored ns ws) = stored (on_stored_nodes ns) ws

    pub on_stored_nodes : StoredNodes → StoredNodes
    on_stored_nodes no_nodes = no_nodes
    on_stored_nodes (node_and i k b r d e l s ns) =
        node_and i (on_kind k) b r d e l s (on_stored_nodes ns)

  unfoldable pub on_nodes : List Node → List Node
  unfolding on_kind
  on_nodes [] = []
  on_nodes (n ∷ ns) = record n { kind = on_kind n.kind } ∷ on_nodes ns

  unfoldable pub on_body : Body → Body
  unfolding on_nodes
  on_body b = record b { nodes = on_nodes b.nodes }

-- Each endpoint's declared latency, and its batch rule: query parameter and key field.
abbrev pub Latencies : Type 0
Latencies = List (String × ℕ)

abbrev pub BatchRules : Type 0
BatchRules = List (String × (String × String))

unfoldable pub stamp_latency : Latencies → FetchIr → FetchIr
stamp_latency table f = record f { latency_ms = lookup f.endpoint table }

unfoldable pub stamp_rule : Option (String × String) → FetchIr → FetchIr
stamp_rule none f = f
stamp_rule (some (param, key)) f = record f {
  batch = some (record { query_param = param; key_field = key; ids = []; mapped = none });
}

unfoldable pub stamp_batch : BatchRules → FetchIr → FetchIr
unfolding stamp_rule
stamp_batch table f = if str_eq f.method "GET" then stamp_rule (lookup f.endpoint table) f else f

unfoldable pub annotate_latency : Latencies → Body → Body
unfolding on_body stamp_latency
annotate_latency table b = on_body (stamp_latency table) b

unfoldable pub annotate_batch : BatchRules → Body → Body
unfolding on_body stamp_batch
annotate_batch table b = on_body (stamp_batch table) b
