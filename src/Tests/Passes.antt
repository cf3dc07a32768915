-- ===== src/Tests/Passes.antt =====
-- The properties of the passes on the sample block.
use tired.Prelude.{
  ℕ, ◌<◌, String, List, [], ◌∷◌, Option, none, some, ◌≡◌, ◌↔◌, ◌≢◌, refl, ap, sym, zero, suc, Bool,
  true, false, get_elem?, mem_nat, All, arith, contains, sort, join, concat, insert,
}
use tired.Syntax.Ast.{Expr, path, literal_and, no_segs}
use tired.Compiler.Ir
use tired.Compiler.Ir.{Node, Body, FetchIr, NodeKind, BatchSpec}
use tired.Compiler.Ir.Deep.{Deep}
use tired.Compiler.Deps.{compute_deps}
use tired.Compiler.Deps.Meaning.{compute_deps-edges, IsEdge, test_at}
use tired.Compiler.Deps.Wired.{IsWired, IsNumbered, deps_of}
use tired.Compiler.Lower.FreeVars.{free_vars_of, ops_vars}
use tired.Compiler.Lower.Occurs.{occurs}
use tired.Compiler.Lower.Occurs.Free.{contains-free_vars_of}
use tired.Compiler.Lower.Nodes.{lower_block}
use tired.Compiler.Lower.Sound.{IsLowered, lower_block-IsLowered}
use tired.Compiler.Optimize.Liveness.{liveness, mark, mark_all, live_marks}
use tired.Compiler.Optimize.Liveness.Correct.{Observed, liveness-Observed}
use tired.Compiler.Optimize.Waves.{
  is_live, schedule_waves, push_at, max_level, levels_from, levels, waves_of, fill, node_level,
  dep_level,
}
use tired.Compiler.Optimize.Waves.Buckets.{RisingFrom}
use tired.Compiler.Optimize.Waves.Correct.{wave, scheduled_once, dependency_before, waves_in_order}
use tired.Compiler.Optimize.Dedup.{
  dedup_nodes, node_sig, is_get, Rewrite, fetch_sig, update, find_rewrites, kind_sig, is_mapped,
  remember, apply_rewrites, reuse,
}
use tired.Compiler.Optimize.Dedup.Correct.{answers}
use tired.Compiler.Optimize.Dedup.Scan.{Outcome}
use tired.Compiler.Optimize.Dedup.Unique.{shared, dedup_unique, dedup_keeps, dedup-Outcome}
use tired.Compiler.Optimize.Dedup.Ambiguous.{fetch_sig-regroup, grouped_left, grouped_right}
use tired.Tests.Sample.{sample, show_float, here, variable, a_plus_b}

abbrev body : Body
body = lower_block sample

abbrev blank : Node
blank = record {
  id = 0;
  kind = Ir.log a_plus_b;
  binding = none;
  reads = [];
  deps = [];
  effect = true;
  live = true;
  span = here;
}

abbrev node_in : List Node → ℕ → Node
node_in ns j = elim (get_elem? ns j) [ none ↦ blank | some n ↦ n ]

body-IsWired : IsWired body.nodes
body-IsWired = (lower_block-IsLowered sample).here.0

at_test : get_elem? body.nodes 3 ≡ some (node_in body.nodes 3)
unfolding lower_block compute_deps
at_test = refl

-- Liveness on the sample: the third request is dropped.
abbrev swept : Body
swept = liveness body

lower_block-IsLowered_example : Deep IsLowered (lower_block sample)
lower_block-IsLowered_example = lower_block-IsLowered sample

compute_deps-edges_example :
    (ds : List ℕ) × (get_elem? (compute_deps body.nodes) 3
      ≡ some (record (node_in body.nodes 3) { deps = ds }))
    × ((d : ℕ) → (mem_nat d ds ≡ true) ↔ IsEdge body.nodes 3 (node_in body.nodes 3) d)
compute_deps-edges_example = compute_deps-edges body.nodes 3 (node_in body.nodes 3) at_test

contains-free_vars_of_example : contains "a" (free_vars_of a_plus_b) ≡ occurs "a" a_plus_b
contains-free_vars_of_example = contains-free_vars_of "a" a_plus_b

liveness-Observed_example :
    (l : Bool) × (get_elem? (liveness body).nodes 3
      ≡ some (record (node_in body.nodes 3) { live = l }))
    × ((l ≡ true) ↔ Observed body.nodes 3)
liveness-Observed_example = liveness-Observed body 3 (node_in body.nodes 3) body-IsWired at_test

is_live_test : is_live body.nodes 3 ≡ true
unfolding lower_block compute_deps
is_live_test = refl

scheduled_once_example :
    (l : ℕ) × (mem_nat 3 (wave body l) ≡ true) × ((k : ℕ) → mem_nat 3 (wave body k) ≡ true → k ≡ l)
scheduled_once_example = scheduled_once body 3 body-IsWired is_live_test

is_dead_test : is_live swept.nodes 2 ≡ false
unfolding lower_block compute_deps liveness live_marks mark mark_all free_vars_of insert
is_dead_test = refl

later_test : mem_nat 3 (wave body 1) ≡ true
unfolding lower_block compute_deps schedule_waves waves_of fill push_at max_level levels levels_from
    node_level dep_level ops_vars free_vars_of insert
later_test = refl

earlier_test : mem_nat 0 (wave body 0) ≡ true
unfolding lower_block compute_deps schedule_waves waves_of fill push_at max_level levels levels_from
    node_level dep_level ops_vars free_vars_of insert
earlier_test = refl

edge_test : mem_nat 0 (deps_of body.nodes 3) ≡ true
unfolding lower_block compute_deps free_vars_of insert
edge_test = refl

dependency_before_example : 0 < 1
dependency_before_example =
    dependency_before body 3 0 1 0 body-IsWired later_test earlier_test edge_test

waves_in_order_example :
    All (λ ids. ids ≢ []) (schedule_waves body).waves × RisingFrom 0 (wave body 1)
waves_in_order_example = waves_in_order body 1 body-IsWired

abbrev signature : String
signature = elim (node_sig show_float (node_in body.nodes 0)) [ none ↦ "" | some s ↦ s ]

shared_test : test_at (answers show_float signature) (dedup_nodes show_float body.nodes) 0 ≡ true
unfolding lower_block compute_deps dedup_nodes node_sig apply_rewrites find_rewrites reuse kind_sig
    is_get is_mapped remember fetch_sig concat Ir.segments join sort ops_vars update
shared_test = refl

dedup_unique_example :
    test_at (answers show_float signature) (dedup_nodes show_float body.nodes) 1 ≡ false
dedup_unique_example =
    dedup_unique show_float body.nodes signature 0 1 body-IsWired.numbered (omega arith) shared_test

-- The mutating request is a `POST` of the same path.
abbrev post : Node
post = record blank {
  kind = Ir.fetch (record {
    method = "POST";
    endpoint = "Shop";
    endpoint_span = here;
    path = path (literal_and "one" no_segs) here;
    params = [];
    body = none;
    idempotency_key = none;
    latency_ms = none;
    batch = none;
    pipeline = [];
    as_result = false;
    contract_ty = none;
  });
}

posts : IsNumbered (post ∷ [])
posts zero n e = let same : post ≡ n = cc in rw (← same)
posts (suc j) n e = cc

post_test : (f : FetchIr) → post.kind ≡ Ir.fetch f → is_get f ≡ false
unfolding is_get
post_test f e = ap is_get_kind (sym e)
  where
    is_get_kind : NodeKind → Bool
    is_get_kind (Ir.fetch f) = is_get f
    is_get_kind _ = false

dedup_keeps_example : get_elem? (dedup_nodes show_float (post ∷ [])) 0 ≡ some post
dedup_keeps_example = dedup_keeps show_float (post ∷ []) 0 post posts refl post_test

dedup-Outcome_example :
    (o : Option Rewrite) × (get_elem? (dedup_nodes show_float body.nodes) 3
      ≡ some (shared o (node_in body.nodes 3)))
    × Outcome show_float body.nodes 3 (node_in body.nodes 3) o
dedup-Outcome_example =
    dedup-Outcome show_float body.nodes 3 (node_in body.nodes 3) body-IsWired.numbered at_test

abbrev difference : FetchIr → Expr → FetchIr
difference f e = record f { params = ("q", e) ∷ [] }

abbrev plain : FetchIr
plain = record {
  method = "GET";
  endpoint = "Shop";
  endpoint_span = here;
  path = path (literal_and "one" no_segs) here;
  params = [];
  body = none;
  idempotency_key = none;
  latency_ms = none;
  batch = none;
  pipeline = [];
  as_result = false;
  contract_ty = none;
}

fetch_sig-regroup_example :
    fetch_sig show_float
      (difference plain (grouped_right (variable "a") (variable "b") (variable "c") here))
      []
      []
    ≡ fetch_sig show_float
        (difference plain (grouped_left (variable "a") (variable "b") (variable "c") here))
        []
        []
fetch_sig-regroup_example =
    fetch_sig-regroup show_float plain "q" (variable "a") (variable "b") (variable "c") here [] []
