-- ===== src/Tests/Costs.antt =====
-- The properties of the cost analysis at a flow that calls itself and a `match` with a retry arm.
use tired.Prelude.{◌+◌, ◌-◌, ◌^◌, List, [], ◌∷◌, none, some, ◌≡◌, refl, ◌↔◌, All, true, length}
use tired.Syntax.Ast.{Expr, call, no_exprs, wildcard, no_effects}
use tired.Syntax.Items.{Budget}
use tired.Compiler.Ir
use tired.Compiler.Ir.{Body, Flow, Server, Arms, store}
use tired.Compiler.Cost.{
  Cost, no_cost, fetch_cost, retry_cost, arms_cost, body_cost, flow_call_cost, request_cost,
  lat_add,
}
use tired.Compiler.Cost.Join.{AtMost, EachArm, arms_cost-least}
use tired.Compiler.Cost.Calls.{request_cost-fuel}
use tired.Compiler.Cost.Budgets.{check_budgets}
use tired.Compiler.Cost.Budgets.Met.{MeetsDeclared, check_budgets-nil}
use tired.Compiler.Lower.Nodes.{lower_block}
use tired.Compiler.Effects.{effects}
use tired.Compiler.Effects.Covered.{Covers, LiveStored}
use tired.Compiler.Effects.Calls.{CallCovered, effects-Covers}
use tired.Tests.Sample.{post_then_log, here, variable}

-- flow ping { ping() }
abbrev ping_call : Expr
ping_call = call (variable "ping") no_exprs here

abbrev ping_body : Body
ping_body = record {
  nodes =
      record {
        id = 0;
        kind = Ir.expr ping_call;
        binding = none;
        reads = [];
        deps = [];
        effect = true;
        live = true;
        span = here;
      }
      ∷ [];
  waves = (0 ∷ []) ∷ [];
}

abbrev budget : Budget
budget = record {
  requests = some 3;
  parallel = none;
  hops = some 2;
  p99_ms = some 100;
  span = here;
}

abbrev flows : List Flow
flows = record { name = "ping"; params = []; budget = some budget; body = ping_body } ∷ []

abbrev arms : Arms
arms =
    Ir.arm_and (wildcard here) (Ir.retry no_effects)
      (Ir.arm_and (wildcard here) (Ir.body (store ping_body)) Ir.no_arms)

-- The largest latency and one millisecond more.
lat_add_test : lat_add (some (2 ^ 64 - 1)) (some 1) ≡ some 0
unfolding lat_add
lat_add_test = refl

abbrev calls : Expr → Cost
calls e = fetch_cost (some 20)

request_cost-fuel_example :
    body_cost (flow_call_cost (7 + length flows) flows []) (store ping_body)
    ≡ request_cost ping_body flows
request_cost-fuel_example = request_cost-fuel ping_body flows 7

arms_cost-least_example :
    AtMost (arms_cost calls arms no_cost) retry_cost ↔ EachArm (λ d. AtMost d retry_cost) calls arms
arms_cost-least_example = arms_cost-least calls arms retry_cost

abbrev servers : List Server
servers = []

check_budgets-nil_example : (check_budgets flows servers ≡ []) ↔ (
    All (λ f. MeetsDeclared f.budget (request_cost f.body flows)) flows
    × All (λ s. All (λ r. MeetsDeclared r.budget (request_cost r.body flows)) s.routes) servers)
check_budgets-nil_example = check_budgets-nil flows servers

effects-Covers_example :
    let r = effects (lower_block post_then_log) flows in
    LiveStored
      (Covers r)
      (CallCovered flows r (length flows) [])
      (store (lower_block post_then_log))
effects-Covers_example = effects-Covers (lower_block post_then_log) flows
