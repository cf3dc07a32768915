-- ===== src/Compiler/Optimize/Driver.antt =====
-- `optimize` and `optimize_body` of crates/hale-compiler/src/optimize.rs: the passes in their order,
-- on every body of a program. The counter `seq` names the batches of fused loops.
pub mod Sound
pub mod Fuel
pub mod Program
use tired.Prelude.{ℕ, zero, suc, max, String, List, [], ◌∷◌, ◌++◌, Option, none, some}
use tired.Syntax.Ast.{ℤ}
use tired.Syntax.Diag.{Diagnostics}
use tired.Compiler.Ir
use tired.Compiler.Ir.Depth.{list_depth}
use tired.Compiler.Ir.{
  Node, NodeKind, Arms, ArmBodyIr, Stored, StoredNodes, stored, no_nodes, node_and, Body, Flow,
  Test, Server, Route, load, store,
}
use tired.Compiler.Optimize.Dedup.{dedup_requests, dedup_warnings}
use tired.Compiler.Fusion.Requests.{fuse_requests, plan_requests}
use tired.Compiler.Fusion.Loops.{fuse_loops, loop_warnings, next_seq}
use tired.Compiler.Optimize.Liveness.{liveness, liveness_warnings}
use tired.Compiler.Optimize.Waves.{schedule_waves}

-- What a pass over a body does: the new body, its warnings, and the next number.
abbrev pub Pass : Type 0
Pass = Body → ℕ → Body × Diagnostics × ℕ

module _ (f : Pass) where
  unfoldable pub on_stored : Stored → ℕ → Stored × Diagnostics × ℕ
  on_stored s seq = let (b, ds, next) = f (load s) seq in (store b, ds, next)

  unfoldable pub on_arms : Arms → ℕ → Arms × Diagnostics × ℕ
  unfolding on_stored
  on_arms Ir.no_arms seq = (Ir.no_arms, [], seq)
  on_arms (Ir.arm_and p (Ir.body b) arms) seq =
      let (b', ds, next) = on_stored b seq in
      let (arms', es, last) = on_arms arms next in (Ir.arm_and p (Ir.body b') arms', ds ++ es, last)
  on_arms (Ir.arm_and p (Ir.value e) arms) seq =
      let (arms', es, last) = on_arms arms seq in (Ir.arm_and p (Ir.value e) arms', es, last)
  on_arms (Ir.arm_and p (Ir.retry e) arms) seq =
      let (arms', es, last) = on_arms arms seq in (Ir.arm_and p (Ir.retry e) arms', es, last)

  unfoldable pub on_kind : NodeKind → ℕ → NodeKind × Diagnostics × ℕ
  unfolding on_arms on_stored
  on_kind (Ir.match_node e arms sp) seq =
      let (arms', ds, next) = on_arms arms seq in (Ir.match_node e arms' sp, ds, next)
  on_kind (Ir.for_each v e b r sp) seq =
      let (b', ds, next) = on_stored b seq in (Ir.for_each v e b' r sp, ds, next)
  on_kind k seq = (k, [], seq)

  -- The last loop of `optimize_body`.
  unfoldable pub on_nodes : List Node → ℕ → List Node × Diagnostics × ℕ
  unfolding on_kind
  on_nodes [] seq = ([], [], seq)
  on_nodes (n ∷ ns) seq =
      let (k, ds, next) = on_kind n.kind seq in
      let (ns', es, last) = on_nodes ns next in (record n { kind = k } ∷ ns', ds ++ es, last)

module _ (show_float : ℕ → String) (parse_int : String → Option ℤ) where
  -- The five passes on one body.
  unfoldable pub passes : ℕ → Body → Body
  passes seq b =
      schedule_waves (
        liveness
          (fuse_requests show_float parse_int (dedup_requests show_float (fuse_loops seq b))))

  unfoldable pub pass_warnings : ℕ → Body → Diagnostics
  pass_warnings seq b =
      let looped = fuse_loops seq b in
      let unique = dedup_requests show_float looped in
      let fused = fuse_requests show_float parse_int unique in
      loop_warnings b.nodes
      ++ (dedup_warnings show_float looped
          ++ ((plan_requests show_float parse_int unique.nodes).warnings
              ++ liveness_warnings fused))

  unfoldable pub optimize_fuel : ℕ → Pass
  unfolding on_nodes passes pass_warnings
  optimize_fuel zero b seq = (b, [], seq)
  optimize_fuel (suc fuel) b seq =
      let flat = passes seq b in
      let (ns, ds, last) = on_nodes (optimize_fuel fuel) flat.nodes (next_seq seq b) in
      (record flat { nodes = ns }, pass_warnings seq b ++ ds, last)

  -- The passes never nest bodies deeper, so the depth of the body is fuel enough.
  unfoldable pub optimize_body : Pass
  unfolding optimize_fuel list_depth
  optimize_body b seq = optimize_fuel (suc (list_depth b.nodes)) b seq

  unfoldable pub optimize_flows : List Flow → ℕ → List Flow × Diagnostics × ℕ
  optimize_flows [] seq = ([], [], seq)
  optimize_flows (f ∷ fs) seq =
      let (b, ds, next) = optimize_body f.body seq in
      let (fs', es, last) = optimize_flows fs next in (record f { body = b } ∷ fs', ds ++ es, last)

  unfoldable pub optimize_tests : List Test → ℕ → List Test × Diagnostics × ℕ
  optimize_tests [] seq = ([], [], seq)
  optimize_tests (t ∷ ts) seq =
      let (b, ds, next) = optimize_body t.body seq in
      let (ts', es, last) = optimize_tests ts next in (record t { body = b } ∷ ts', ds ++ es, last)

  unfoldable pub optimize_routes : List Route → ℕ → List Route × Diagnostics × ℕ
  optimize_routes [] seq = ([], [], seq)
  optimize_routes (r ∷ rs) seq =
      let (b, ds, next) = optimize_body r.body seq in
      let (rs', es, last) = optimize_routes rs next in (record r { body = b } ∷ rs', ds ++ es, last)

  unfoldable pub optimize_servers : List Server → ℕ → List Server × Diagnostics × ℕ
  unfolding optimize_routes
  optimize_servers [] seq = ([], [], seq)
  optimize_servers (s ∷ ss) seq =
      let (rs, ds, next) = optimize_routes s.routes seq in
      let (ss', es, last) = optimize_servers ss next in
      (record s { routes = rs } ∷ ss', ds ++ es, last)

  unfoldable pub optimize :
      Body
      → List Flow
      → List Test
      → List Server
      → Body × List Flow × List Test × List Server × Diagnostics
  unfolding optimize_body optimize_flows optimize_tests optimize_servers
  optimize main flows tests servers =
      let (main', ds, a) = optimize_body main 0 in
      let (flows', es, b) = optimize_flows flows a in
      let (tests', fs, c) = optimize_tests tests b in
      let (servers', gs, d) = optimize_servers servers c in
      (main', flows', tests', servers', ds ++ (es ++ (fs ++ gs)))
