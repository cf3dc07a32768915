-- ===== src/Compiler/Fusion/Loops.antt =====
-- `fuse_loops` of crates/hale-compiler/src/optimize.rs: a request per element becomes one batched
-- request before the loop.
pub mod Kept
pub mod Quiet
use tired.Prelude.{
  ℕ, zero, suc, ◌+◌, Bool, true, false, not, ◌&&◌, ◌||◌, String, List, [], ◌∷◌, ◌++◌, Option, none,
  some, if◌then◌else◌, str_eq, length, contains, all, concat, insert, insert_all, remove,
  remove_all, show_nat,
}
use tired.Syntax.Span.{Span}
use tired.Syntax.Ast.{Expr, PathPattern}
use tired.Syntax.Diag.{Diagnostics, Diagnostic, warning, with_note}
use tired.Compiler.Ir
use tired.Compiler.Ir.{
  Node, NodeKind, Body, FetchIr, BatchSpec, PathSeg, Stored, stored, load_nodes, store_nodes,
  segments, render_path,
}
use tired.Compiler.Deps.{recompute_deps}
use tired.Compiler.Lower.FreeVars.{free_vars_of}
use tired.Compiler.Lower.Scope.{all_reads, all_binds}
use tired.Compiler.Optimize.Dedup.{update}
use tired.Compiler.Fusion.{batchable, last_seg, prefix_path, is_empty_list}

pub record LoopFusePlan : Type 0 where
  pub fetch_idx : ℕ
  pub endpoint : String
  pub endpoint_span : Span
  pub latency_ms : Option ℕ
  pub orig_path : PathPattern
  pub prefix : PathPattern
  pub key : Expr
  pub query_param : String
  pub key_field : String
  pub binding : String
  pub span : Span

-- The key varies with the element, and reads nothing else that the loop binds.
unfoldable pub key_fits : String → List String → List String → Bool
key_fits var binds key_fv =
    contains var key_fv && all (λ v. str_eq v var || not (contains v binds)) key_fv

-- No segment reads the element or what the loop binds.
unfoldable pub prefix_fits : String → List String → List PathSeg → Bool
prefix_fits var binds [] = true
prefix_fits var binds (Ir.literal _ ∷ ss) = prefix_fits var binds ss
prefix_fits var binds (Ir.param e ∷ ss) =
    all (λ v. not (str_eq v var) && not (contains v binds)) (free_vars_of e)
    && prefix_fits var binds ss

abbrev pub or_default : Option String → String
or_default none = ""
or_default (some b) = b

seg_plan :
    String
    → List String
    → ℕ
    → FetchIr
    → BatchSpec
    → Option String
    → Span
    → Option PathSeg
    → Option LoopFusePlan
unfolding key_fits prefix_fits
seg_plan var binds i f spec bound sp (some (Ir.param key)) =
    if key_fits var binds (free_vars_of key)
      && prefix_fits var binds (segments (prefix_path f.path))
    then some (record {
      fetch_idx = i;
      endpoint = f.endpoint;
      endpoint_span = f.endpoint_span;
      latency_ms = f.latency_ms;
      orig_path = f.path;
      prefix = prefix_path f.path;
      key = key;
      query_param = spec.query_param;
      key_field = spec.key_field;
      binding = or_default bound;
      span = sp;
    })
    else none
seg_plan var binds i f spec bound sp _ = none

fetch_plan :
    String
    → List String
    → ℕ
    → FetchIr
    → Option BatchSpec
    → Option String
    → Span
    → Option LoopFusePlan
unfolding seg_plan
fetch_plan var binds i f none bound sp = none
fetch_plan var binds i f (some spec) bound sp =
    if batchable f spec bound
    then seg_plan var binds i f spec bound sp (last_seg (segments f.path))
    else none

kind_plan : String → List String → ℕ → NodeKind → Option String → Span → Option LoopFusePlan
unfolding fetch_plan
kind_plan var binds i (Ir.fetch f) bound sp = fetch_plan var binds i f f.batch bound sp
kind_plan var binds i _ bound sp = none

-- The loop over the nodes of the loop body, from the node at position i.
unfoldable pub plans_from : String → List String → ℕ → List Node → List LoopFusePlan
unfolding kind_plan
plans_from var binds i [] = []
plans_from var binds i (n ∷ ns) =
    let rest = plans_from var binds (suc i) ns in
    elim (kind_plan var binds i n.kind n.binding n.span) [ none ↦ rest | some p ↦ p ∷ rest ]

unfoldable pub loop_fusions : String → List Node → List LoopFusePlan
loop_fusions var ns = plans_from var (all_binds ns []) 0 ns

-- The variables of the key but the element's, and of the collection.
unfoldable pub make_loop_batch_node : ℕ → String → String → Expr → LoopFusePlan → Node
make_loop_batch_node id batch_name var iter plan = record {
  id = id;
  kind = Ir.fetch (record {
    method = "GET";
    endpoint = plan.endpoint;
    endpoint_span = plan.endpoint_span;
    path = plan.prefix;
    params = [];
    body = none;
    idempotency_key = none;
    latency_ms = plan.latency_ms;
    batch = some (record {
      query_param = plan.query_param;
      key_field = plan.key_field;
      ids = [];
      mapped = some (record { coll = iter; var = var; key = plan.key });
    });
    pipeline = [];
    as_result = false;
    contract_ty = none;
  });
  binding = some batch_name;
  reads = insert_all (remove var (free_vars_of plan.key)) (free_vars_of iter);
  deps = [];
  effect = false;
  live = true;
  span = plan.span;
}

unfoldable pub make_loop_scatter : String → LoopFusePlan → Node → Node
make_loop_scatter batch_name plan original = record {
  id = original.id;
  kind = Ir.scatter (record { batch = batch_name; key_field = plan.key_field; value = plan.key });
  binding = some plan.binding;
  reads = insert_all (free_vars_of plan.key) (insert batch_name []);
  deps = [];
  effect = false;
  live = true;
  span = original.span;
}

unfoldable pub batch_name_of : ℕ → String
batch_name_of seq = concat ("__loopbatch_" ∷ show_nat seq ∷ [])

-- The assignments to `fe.body.nodes[plan.fetch_idx]`; `seq` counts the names.
unfoldable pub scatter_all : ℕ → List LoopFusePlan → List Node → List Node
scatter_all seq [] inner = inner
scatter_all seq (p ∷ ps) inner =
    scatter_all (suc seq) ps (update p.fetch_idx (make_loop_scatter (batch_name_of seq) p) inner)

-- `batch_nodes`, with the ids that they get.
unfoldable pub batch_nodes : ℕ → ℕ → String → Expr → List LoopFusePlan → List Node
batch_nodes at seq var iter [] = []
batch_nodes at seq var iter (p ∷ ps) =
    make_loop_batch_node at (batch_name_of seq) var iter p
    ∷ batch_nodes (suc at) (suc seq) var iter ps

unfoldable pub loop_warning : String → LoopFusePlan → Diagnostic
loop_warning var p =
    with_note
      (warning p.span (
        concat (
          "per-element request `"
          ∷ p.endpoint
          ∷ " "
          ∷ render_path p.orig_path
          ∷ "` in a `for "
          ∷ var
          ∷ "` loop was fused into one batched call `"
          ∷ p.endpoint
          ∷ " "
          ∷ render_path p.prefix
          ∷ "?"
          ∷ p.query_param
          ∷ "=…`"
          ∷ [])))
      "N+1 eliminated: the per-element GETs are hoisted into a single up-front batched request and scattered back by the join key"

-- The reads of the rewritten loop node.
unfoldable pub loop_reads : String → Expr → List Node → List String
loop_reads var iter inner =
    remove var (remove_all (all_binds inner []) (all_reads inner (free_vars_of iter)))

unfoldable pub fuse_loop :
    ℕ
    → ℕ
    → Node
    → String
    → Expr
    → List Node
    → List (List ℕ)
    → Bool
    → Span
    → List LoopFusePlan
    → List Node
fuse_loop at seq n var iter inner waves returns sp plans =
    let fused = recompute_deps (scatter_all seq plans inner) in
    batch_nodes at seq var iter plans
    ++ record n {
      id = length plans + at;
      kind = Ir.for_each var iter (stored (store_nodes fused) waves) returns sp;
      reads = loop_reads var iter fused;
    }
      ∷ []

-- The plans of a node: none, but for a loop.
unfoldable pub kind_plans : NodeKind → List LoopFusePlan
kind_plans (Ir.for_each var iter (stored ns _) _ _) = loop_fusions var (load_nodes ns)
kind_plans _ = []

-- The nodes that stand for one node, from the next id and the next number of a batch.
unfoldable pub place_kind : ℕ → ℕ → Node → NodeKind → List LoopFusePlan → List Node
place_kind at seq n k [] = record n { id = at } ∷ []
place_kind at seq n (Ir.for_each var iter (stored ns ws) returns sp) (p ∷ ps) =
    fuse_loop at seq n var iter (load_nodes ns) ws returns sp (p ∷ ps)
place_kind at seq n k (p ∷ ps) = record n { id = at } ∷ []

unfoldable pub rebuild_loops : ℕ → ℕ → List Node → List Node
rebuild_loops at seq [] = []
rebuild_loops at seq (n ∷ ns) =
    let plans = kind_plans n.kind in
    let new = place_kind at seq n n.kind plans in
    new ++ rebuild_loops (length new + at) (length plans + seq) ns

-- How many loops' requests are fused.
unfoldable pub count_plans : List Node → ℕ
count_plans [] = 0
count_plans (n ∷ ns) = length (kind_plans n.kind) + count_plans ns

unfoldable pub has_plans : List Node → Bool
has_plans [] = false
has_plans (n ∷ ns) = not (is_empty_list (kind_plans n.kind)) || has_plans ns

unfoldable pub fuse_loop_nodes : ℕ → List Node → List Node
fuse_loop_nodes seq ns = if has_plans ns then recompute_deps (rebuild_loops 0 seq ns) else ns

unfoldable pub fuse_loops : ℕ → Body → Body
unfolding fuse_loop_nodes
fuse_loops seq b = record b { nodes = fuse_loop_nodes seq b.nodes }

-- `*seq` after the pass.
unfoldable pub next_seq : ℕ → Body → ℕ
unfolding count_plans
next_seq seq b = count_plans b.nodes + seq

plan_warnings : String → List LoopFusePlan → Diagnostics
unfolding loop_warning
plan_warnings var [] = []
plan_warnings var (p ∷ ps) = loop_warning var p ∷ plan_warnings var ps

kind_warnings : NodeKind → List LoopFusePlan → Diagnostics
unfolding plan_warnings
kind_warnings (Ir.for_each var _ _ _ _) plans = plan_warnings var plans
kind_warnings _ plans = []

unfoldable pub loop_warnings : List Node → Diagnostics
unfolding kind_warnings kind_plans
loop_warnings [] = []
loop_warnings (n ∷ ns) = kind_warnings n.kind (kind_plans n.kind) ++ loop_warnings ns
