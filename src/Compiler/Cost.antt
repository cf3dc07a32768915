-- ===== src/Compiler/Cost.antt =====
-- crates/hale-compiler/src/cost.rs: the static request cost. Sums wrap at
-- 2^64, as `usize` and `u64` do in a release build for a 64-bit machine. `call` is the cost of a statement-level call, and a recursion of its own.
pub mod Join
pub mod Calls
pub mod Budgets
use tired.Prelude.{
  ℕ, zero, suc, ◌+◌, ◌%◌, ◌^◌, max, Bool, true, false, ◌||◌, String, List, [], ◌∷◌, Option, none,
  some, ltb, if◌then◌else◌, contains, get_or, get_elem?, set, replicate, length, str_eq, keep,
}
use tired.Syntax.Ast.{Expr, call, ident}
use tired.Compiler.Ir.{
  Node, Body, Flow, NodeKind, Arms, ArmBodyIr, Stored, StoredNodes, fetch, let_node, log,
  return_node, assert_node, expr, match_node, scatter, for_each, no_arms, arm_and, value, body,
  retry, stored, no_nodes, node_and, load_nodes, store, is_fetch,
}

-- `RETRY_BUDGET`
abbrev pub retry_budget : ℕ
retry_budget = 5

pub record Cost : Type 0 where
  pub max_requests : ℕ
  pub max_parallel : ℕ
  pub depth : ℕ
  pub latency_ms : Option ℕ
  pub unbounded : Bool

-- `Cost::default()`
abbrev pub no_cost : Cost
no_cost = record {
  max_requests = 0;
  max_parallel = 0;
  depth = 0;
  latency_ms = some 0;
  unbounded = false;
}

unfoldable pub lat_max : Option ℕ → Option ℕ → Option ℕ
lat_max (some x) (some y) = some (max x y)
lat_max _ _ = none

-- `+` of `u64`, and of `usize`
abbrev pub add_u64 : ℕ → ℕ → ℕ
add_u64 x y = (x + y) % 2 ^ 64

unfoldable pub lat_add : Option ℕ → Option ℕ → Option ℕ
lat_add (some x) (some y) = some (add_u64 x y)
lat_add _ _ = none

unfoldable pub join_alt : Cost → Cost → Cost
unfolding lat_max
join_alt a b = record {
  max_requests = max a.max_requests b.max_requests;
  max_parallel = max a.max_parallel b.max_parallel;
  depth = max a.depth b.depth;
  latency_ms = lat_max a.latency_ms b.latency_ms;
  unbounded = a.unbounded || b.unbounded;
}

unfoldable pub fetch_cost : Option ℕ → Cost
fetch_cost latency = record {
  max_requests = 1;
  max_parallel = 0;
  depth = 1;
  latency_ms = latency;
  unbounded = false;
}

-- The `ForEach` case, from the cost of one iteration.
unfoldable pub loop_cost : Cost → Cost
loop_cost inner =
    let scales = ltb 0 inner.max_requests in
    record {
      max_requests = inner.max_requests;
      max_parallel = inner.max_parallel;
      depth = inner.depth;
      latency_ms = if scales || inner.unbounded then none else inner.latency_ms;
      unbounded = inner.unbounded || scales;
    }

unfoldable pub retry_cost : Cost
retry_cost = record {
  max_requests = retry_budget;
  max_parallel = 1;
  depth = retry_budget;
  latency_ms = some 0;
  unbounded = false;
}

-- The first loop over `node_costs`: requests add up, the other two are joined.
unfoldable pub total : List Cost → Cost → Cost
total [] cost = cost
total (c ∷ cs) cost = total cs (record cost {
  max_requests = add_u64 cost.max_requests c.max_requests;
  max_parallel = max cost.max_parallel c.max_parallel;
  unbounded = cost.unbounded || c.unbounded;
})

abbrev pub fetch_at : List Node → ℕ → Bool
fetch_at ns id = elim (get_elem? ns id) [ none ↦ false | some n ↦ is_fetch n.kind ]

abbrev pub cost_at : List Cost → ℕ → Cost
cost_at cs id = get_or cs id no_cost

unfoldable pub wave_hop : List Cost → List ℕ → ℕ
wave_hop cs [] = 0
wave_hop cs (id ∷ ids) = max (cost_at cs id).depth (wave_hop cs ids)

unfoldable pub wave_latency : List Cost → List ℕ → Option ℕ → Option ℕ
wave_latency cs [] acc = acc
wave_latency cs (id ∷ ids) acc = wave_latency cs ids (lat_max acc (cost_at cs id).latency_ms)

-- The loop over the waves: inside a wave the widest and slowest count, waves add up.
unfoldable pub schedule_cost : List Node → List Cost → List (List ℕ) → Cost → Cost
unfolding wave_hop wave_latency lat_add
schedule_cost ns cs [] cost = cost
schedule_cost ns cs (w ∷ ws) cost = schedule_cost ns cs ws (record cost {
  max_parallel = max cost.max_parallel (length (keep (fetch_at ns) w));
  depth = add_u64 cost.depth (wave_hop cs w);
  latency_ms = lat_add cost.latency_ms (wave_latency cs w (some 0));
})

unfoldable mutual
  unfolding loop_cost fetch_cost retry_cost total schedule_cost join_alt

  -- `body_cost`
  pub body_cost : (Expr → Cost) → Stored → Cost
  body_cost calls (stored ns ws) =
      let nodes = load_nodes ns in
      let costs = node_costs calls ns (replicate (length nodes) no_cost) in
      schedule_cost nodes costs ws (total costs no_cost)

  -- The assignments to `node_costs[node.id]`.
  pub node_costs : (Expr → Cost) → StoredNodes → List Cost → List Cost
  node_costs calls no_nodes cs = cs
  node_costs calls (node_and id k _ _ _ _ live _ ns) cs =
      node_costs calls ns (if live then set cs id (kind_cost calls k) else cs)

  pub kind_cost : (Expr → Cost) → NodeKind → Cost
  kind_cost calls (fetch f) = fetch_cost f.latency_ms
  kind_cost calls (expr e) = calls e
  kind_cost calls (match_node _ arms _) = arms_cost calls arms no_cost
  kind_cost calls (for_each _ _ b _ _) = loop_cost (body_cost calls b)
  kind_cost calls _ = no_cost

  -- The fold over the arms.
  pub arms_cost : (Expr → Cost) → Arms → Cost → Cost
  arms_cost calls no_arms acc = acc
  arms_cost calls (arm_and _ b arms) acc = arms_cost calls arms (join_alt acc (arm_cost calls b))

  pub arm_cost : (Expr → Cost) → ArmBodyIr → Cost
  arm_cost calls (body b) = body_cost calls b
  arm_cost calls (value _) = no_cost
  arm_cost calls (retry _) = retry_cost

unfoldable pub callee_name : Expr → Option String
callee_name (ident n) = some n.node
callee_name _ = none

-- `call_name`, which `flow_call_cost` repeats.
unfoldable pub call_name : Expr → Option String
unfolding callee_name
call_name (call callee _ _) = callee_name callee
call_name _ = none

-- `flows.iter().find(|f| f.name == name)`
unfoldable pub find_flow : String → List Flow → Option Flow
find_flow name [] = none
find_flow name (f ∷ fs) = if str_eq f.name name then some f else find_flow name fs

-- `flow_call_cost`, with the missing result read as the default. The fuel bounds how many flows
-- call one another in a row; `visiting` holds those that are being visited.
unfoldable pub flow_call_cost : ℕ → List Flow → List String → Expr → Cost
unfolding call_name find_flow body_cost
flow_call_cost zero flows visiting e = no_cost
flow_call_cost (suc fuel) flows visiting e = elim (call_name e) [
  | none ↦ no_cost
  | some name ↦ elim (contains name visiting) [
    | true ↦ no_cost
    | false ↦ elim (find_flow name flows) [
      | none ↦ no_cost
      | some f ↦ body_cost (flow_call_cost fuel flows (name ∷ visiting)) (store f.body)
    ]
  ]
]

-- No flow is visited twice in a row of calls, so as much fuel as there are flows is enough.
unfoldable pub request_cost : Body → List Flow → Cost
unfolding flow_call_cost
request_cost b flows = body_cost (flow_call_cost (length flows) flows []) (store b)
