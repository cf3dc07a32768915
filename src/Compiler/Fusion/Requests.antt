-- ===== src/Compiler/Fusion/Requests.antt =====
-- `fuse_requests` of crates/hale-compiler/src/optimize.rs: near-identical requests become one.
pub mod Candidates
pub mod Kept
pub mod Quiet
use tired.Prelude.{
  ℕ, zero, suc, ◌+◌, Bool, true, false, not, ◌&&◌, String, List, [], ◌∷◌, ◌++◌, Option, none, some,
  ◌==◌, if◌then◌else◌, str_eq, length, ltb, get_elem?, contains, any, all, concat, join, insert,
  insert_all, show_nat,
}
use tired.Syntax.Span.{Span}
use tired.Syntax.Ast.{Expr, ℤ, PathPattern}
use tired.Syntax.Diag.{Diagnostics, Diagnostic, warning, with_note}
use tired.Syntax.Pretty.{expr_text}
use tired.Compiler.Ir
use tired.Compiler.Ir.{
  Node, NodeKind, Body, FetchIr, BatchSpec, ScatterIr, PathSeg, segments, render_path,
}
use tired.Compiler.Deps.{recompute_deps}
use tired.Compiler.Lower.FreeVars.{free_vars_of}
use tired.Compiler.Fusion.{
  batchable, init_segs, prefix_path, all_free_vars, varying_value, is_empty_list,
}

pub record GroupPlan : Type 0 where
  pub batch_binding : String
  pub template : FetchIr
  pub prefix : PathPattern
  pub query_param : String
  pub key : String
  pub ids : List Expr
  pub span : Span

-- `order` and `members` together: the keys as they first appear, each with its nodes.
abbrev pub Members : Type 0
Members = List (String × List ℕ)

unfoldable pub add_member : String → ℕ → Members → Members
add_member k i [] = (k, i ∷ []) ∷ []
add_member k i ((j, is) ∷ ms) =
    if str_eq j k then (j, is ++ i ∷ []) ∷ ms else (j, is) ∷ add_member k i ms

-- `plan`, `groups` and the warnings.
pub record Planned : Type 0 where
  pub plan : List (ℕ × ℕ × Bool)
  pub groups : List GroupPlan
  pub warnings : Diagnostics

abbrev pub nothing_planned : Planned
nothing_planned = record { plan = []; groups = []; warnings = [] }

-- The bindings of `body.nodes[first..]`.
unfoldable pub bound_from : ℕ → List Node → List String
bound_from i [] = []
bound_from zero (n ∷ ns) = elim n.binding [
  | none ↦ bound_from zero ns
  | some b ↦ b ∷ bound_from zero ns
]
bound_from (suc i) (n ∷ ns) = bound_from i ns

abbrev pub batch_of : FetchIr → Option (FetchIr × BatchSpec)
batch_of f = elim f.batch [ none ↦ none | some spec ↦ some (f, spec) ]

-- The leader's fetch with its batch rule; members are requests with one.
abbrev pub leader_kind : NodeKind → Option (FetchIr × BatchSpec)
leader_kind (Ir.fetch f) = batch_of f
leader_kind _ = none

unfoldable pub leader_of : Option Node → Option (FetchIr × BatchSpec × Span)
leader_of none = none
leader_of (some n) = elim (leader_kind n.kind) [
  | none ↦ none
  | some (f, spec) ↦ some (f, spec, n.span)
]

-- `plan.insert(idx, (gid, j == 0))` for each member.
unfoldable pub plan_members : List ℕ → ℕ → Bool → List (ℕ × ℕ × Bool)
plan_members [] gid leader = []
plan_members (i ∷ is) gid leader = (i, gid, leader) ∷ plan_members is gid false

unfoldable pub find_plan : ℕ → List (ℕ × ℕ × Bool) → Option (ℕ × Bool)
find_plan i [] = none
find_plan i ((j, gid, leader) ∷ ps) = if j == i then some (gid, leader) else find_plan i ps

unfoldable pub fused_warning : Span → ℕ → FetchIr → String → Diagnostic
fused_warning sp count f query_param =
    with_note
      (warning sp (
        concat (
          show_nat count
          ∷ " requests to `"
          ∷ f.endpoint
          ∷ " "
          ∷ render_path f.path
          ∷ "` fused into one batched call `?"
          ∷ query_param
          ∷ "=…`"
          ∷ [])))
      "request fusion: N round-trips collapse to 1; results are scattered back"

unfoldable pub make_batch_node : ℕ → GroupPlan → Node
make_batch_node id g = record {
  id = id;
  kind = Ir.fetch (record g.template {
    path = g.prefix;
    params = [];
    pipeline = [];
    idempotency_key = none;
    batch =
        some
          (record { query_param = g.query_param; key_field = g.key; ids = g.ids; mapped = none });
  });
  binding = some g.batch_binding;
  reads = all_free_vars g.ids [];
  deps = [];
  effect = false;
  live = true;
  span = g.span;
}

module _ (show_float : ℕ → String) (parse_int : String → Option ℤ) where
  prefix_parts : List PathSeg → List String
  prefix_parts [] = []
  prefix_parts (Ir.literal l ∷ ss) = l ∷ prefix_parts ss
  prefix_parts (Ir.param e ∷ ss) =
      concat ("{" ∷ expr_text show_float e ∷ "}" ∷ []) ∷ prefix_parts ss

  fetch_group_key : FetchIr → Option BatchSpec → Option String → Option String
  unfolding prefix_parts init_segs
  fetch_group_key f none bound = none
  fetch_group_key f (some spec) bound =
      if batchable f spec bound
      then some
          (concat (f.endpoint ∷ "|/" ∷ join "/" (prefix_parts (init_segs (segments f.path))) ∷ []))
      else none

  kind_group_key : NodeKind → Option String → Option String
  unfolding fetch_group_key
  kind_group_key (Ir.fetch f) bound = fetch_group_key f f.batch bound
  kind_group_key _ bound = none

  unfoldable pub batch_group_key : Node → Option String
  unfolding kind_group_key
  batch_group_key n = kind_group_key n.kind n.binding

  -- The first loop.
  unfoldable pub group_nodes : ℕ → List Node → Members → Members
  group_nodes i [] ms = ms
  group_nodes i (n ∷ ns) ms =
      group_nodes (suc i) ns (elim (batch_group_key n) [ none ↦ ms | some k ↦ add_member k i ms ])

  -- `value_of`; only a request has a value, and every member is one.
  kind_value : NodeKind → Option Expr
  kind_value (Ir.fetch f) = some (varying_value parse_int f.path)
  kind_value _ = none

  values_at : List Node → List ℕ → List Expr
  unfolding kind_value
  values_at ns [] = []
  values_at ns (i ∷ is) = elim (get_elem? ns i) [
    | none ↦ values_at ns is
    | some n ↦ elim (kind_value n.kind) [ none ↦ values_at ns is | some e ↦ e ∷ values_at ns is ]
  ]

  -- No value needs a variable that is bound from the first member on.
  unfoldable pub sound_at : List String → List Expr → Bool
  sound_at forbidden es = all (λ e. all (λ v. not (contains v forbidden)) (free_vars_of e)) es

  -- The second loop, on one group.
  plan_sound : ℕ → List ℕ → FetchIr → BatchSpec → Span → List Expr → Planned → Planned
  unfolding plan_members
  plan_sound first m f spec sp ids p =
      let gid = length p.groups in
      record {
        plan = p.plan ++ plan_members m gid true;
        groups =
            p.groups
            ++ record {
              batch_binding = concat ("__batch_" ∷ show_nat gid ∷ []);
              template = f;
              prefix = prefix_path f.path;
              query_param = spec.query_param;
              key = spec.key_field;
              ids = ids;
              span = sp;
            }
              ∷ [];
        warnings = p.warnings ++ fused_warning sp (length m) f spec.query_param ∷ [];
      }

  unfoldable pub plan_group : List Node → List ℕ → Planned → Planned
  unfolding values_at plan_sound leader_of
  plan_group ns (first ∷ second ∷ others) p =
      let m = first ∷ second ∷ others in
      let ids = values_at ns m in
      if sound_at (bound_from first ns) ids
      then elim (leader_of (get_elem? ns first)) [
        | none ↦ p
        | some (f, spec, sp) ↦ plan_sound first m f spec sp ids p
      ]
      else p
  plan_group ns _ p = p

  unfoldable pub plan_groups : List Node → Members → Planned → Planned
  plan_groups ns [] p = p
  plan_groups ns ((_, m) ∷ ms) p = plan_groups ns ms (plan_group ns m p)

  unfoldable pub make_scatter_node : ℕ → GroupPlan → Node → Expr → Node
  make_scatter_node id g original value = record {
    id = id;
    kind = Ir.scatter (record { batch = g.batch_binding; key_field = g.key; value = value });
    binding = original.binding;
    reads = insert_all (free_vars_of value) (insert g.batch_binding []);
    deps = [];
    effect = false;
    live = true;
    span = original.span;
  }

  -- The nodes that stand for one planned member, the leader or another; `at` is the next id.
  expand : ℕ → GroupPlan → Bool → Node → Option Expr → List Node
  unfolding make_batch_node make_scatter_node
  expand at g leader n none = record n { id = at } ∷ []
  expand at g true n (some value) = make_batch_node at g ∷ make_scatter_node (suc at) g n value ∷ []
  expand at g false n (some value) = make_scatter_node at g n value ∷ []

  place_in : ℕ → Bool → Node → Option GroupPlan → List Node
  unfolding expand kind_value
  place_in at leader n none = record n { id = at } ∷ []
  place_in at leader n (some g) = expand at g leader n (kind_value n.kind)

  place_planned : List GroupPlan → ℕ → Node → Option (ℕ × Bool) → List Node
  unfolding place_in
  place_planned groups at n none = record n { id = at } ∷ []
  place_planned groups at n (some (gid, leader)) = place_in at leader n (get_elem? groups gid)

  unfoldable pub place : Planned → ℕ → ℕ → Node → List Node
  unfolding place_planned
  place p i at n = place_planned p.groups at n (find_plan i p.plan)

  -- The loop that rebuilds the node list, from the node at position i and the next new id.
  unfoldable pub rebuild : Planned → ℕ → ℕ → List Node → List Node
  rebuild p i at [] = []
  rebuild p i at (n ∷ ns) =
      let new = place p i at n in new ++ rebuild p (suc i) (length new + at) ns

  unfoldable pub plan_requests : List Node → Planned
  plan_requests ns = plan_groups ns (group_nodes 0 ns []) nothing_planned

  unfoldable pub fuse_nodes : List Node → List Node
  fuse_nodes ns =
      let p = plan_requests ns in
      if is_empty_list p.groups then ns else recompute_deps (rebuild p 0 0 ns)

  unfoldable pub fuse_requests : Body → Body
  unfolding fuse_nodes
  fuse_requests b = record b { nodes = fuse_nodes b.nodes }
