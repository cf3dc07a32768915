-- ===== src/Compiler/Cost/Budgets.antt =====
-- `check_budgets` and `check_one` of crates/hale-compiler/src/cost.rs: budgets enforced at compile time.
pub mod Met
pub mod Loud
use tired.Prelude.{
  ℕ, ◌≤◌, Bool, true, false, ◌&&◌, ◌||◌, String, List, [], ◌∷◌, ◌++◌, Option, none, some, ◌≡◌, refl,
  ◌↔◌, ◌⊎◌, inl, inr, arith, ltb, if◌then◌else◌, concat, show_nat, All,
}
use tired.Syntax.Span.{Span}
use tired.Syntax.Diag.{Diagnostics, Diagnostic, error, with_help, with_note, has_errors}
use tired.Syntax.Items.{Budget}
use tired.Compiler.Ir.{Flow, Server, Route, render_path}
use tired.Compiler.Cost.{Cost, request_cost}

abbrev pub is_some : Option ℕ → Bool
is_some none = false
is_some (some _) = true

-- Some bound is declared.
abbrev pub declares : Budget → Bool
declares b = is_some b.requests || is_some b.parallel || is_some b.hops || is_some b.p99_ms

unfoldable pub report : Span → List String → String → String → Diagnostic
report sp message help note = with_note (with_help (error sp (concat message)) help) note

-- One bound: the error if the figure is over it.
unfoldable pub over : Option ℕ → ℕ → (ℕ → Diagnostic) → Diagnostics
over none n d = []
over (some m) n d = if ltb m n then d m ∷ [] else []

unfoldable pub over_latency : Option ℕ → Option ℕ → (ℕ → ℕ → Diagnostic) → Diagnostic → Diagnostics
over_latency none l late unknown = []
over_latency (some m) none late unknown = unknown ∷ []
over_latency (some m) (some l) late unknown = if ltb m l then late l m ∷ [] else []

unfoldable pub check_one : String → Budget → Cost → Diagnostics
unfolding over over_latency
check_one what b c =
    if c.unbounded && declares b
    then report b.span
        (what
          ∷ " issues a request inside a `for` loop (an N+1 pattern), so its request count is unbounded and cannot satisfy a `budget(...)`"
          ∷ [])
        "batch the per-element fetch — declare `batch:` on the endpoint and fetch all ids in one call — or lift the request out of the loop, or drop the budget"
        "static request-cost analysis: a per-element fetch scales with the input size"
      ∷ []
    else over b.requests c.max_requests (λ m.
      report b.span
        (what
          ∷ " can issue up to "
          ∷ show_nat c.max_requests
          ∷ " requests, over its budget of "
          ∷ show_nat m
          ∷ [])
        "reduce the fan-out (dedup, drop unused fetches, push calls behind a `match`) or raise `budget(requests: N)`"
        "static request-cost analysis: this is the worst case over every path")
      ++ (over b.parallel c.max_parallel (λ m.
            report b.span
              (what
                ∷ " fans out to "
                ∷ show_nat c.max_parallel
                ∷ " concurrent requests, over its budget of "
                ∷ show_nat m
                ∷ [])
              "serialize some calls (add a data dependency) or raise `budget(parallel: K)`"
              "static request-cost analysis: the widest concurrent wave")
          ++ (over b.hops c.depth (λ m.
                report b.span
                  (what
                    ∷ " has a critical path of "
                    ∷ show_nat c.depth
                    ∷ " sequential hops, over its budget of "
                    ∷ show_nat m
                    ∷ [])
                  "remove a data dependency so more calls run in one wave, or raise `budget(hops: M)`"
                  "static request-cost analysis: sequential round-trips dominate latency")
              ++ over_latency b.p99_ms c.latency_ms
                  (λ l m.
                    report b.span
                      (what
                        ∷ " has a worst-case critical-path latency of "
                        ∷ show_nat l
                        ∷ "ms, over its budget of "
                        ∷ show_nat m
                        ∷ "ms"
                        ∷ [])
                      "shorten the critical path (parallelize hops) or lower the endpoints' `latency:`"
                      "latency = sum over the critical path of each hop's declared `latency:`")
                  (report b.span
                    (what ∷ " declares a `p99` budget but its latency cannot be bounded" ∷ [])
                    "declare `latency: <duration>` on every endpoint on the critical path"
                    "a latency SLA can only be proven when every hop's latency is known")))

abbrev pub check_declared : String → Option Budget → Cost → Diagnostics
check_declared what none c = []
check_declared what (some b) c = check_one what b c

unfoldable pub check_flows : List Flow → List Flow → Diagnostics
check_flows flows [] = []
check_flows flows (f ∷ fs) =
    check_declared (concat ("flow `" ∷ f.name ∷ "`" ∷ [])) f.budget (request_cost f.body flows)
    ++ check_flows flows fs

unfoldable pub check_routes : List Flow → List Route → Diagnostics
check_routes flows [] = []
check_routes flows (r ∷ rs) =
    check_declared (concat ("route `" ∷ r.method ∷ " " ∷ render_path r.path ∷ "`" ∷ [])) r.budget
      (request_cost r.body flows)
    ++ check_routes flows rs

unfoldable pub check_servers : List Flow → List Server → Diagnostics
unfolding check_routes
check_servers flows [] = []
check_servers flows (s ∷ ss) = check_routes flows s.routes ++ check_servers flows ss

unfoldable pub check_budgets : List Flow → List Server → Diagnostics
unfolding check_flows check_servers
check_budgets flows servers = check_flows flows flows ++ check_servers flows servers

-- A declared bound is met.
abbrev pub Within : Option ℕ → ℕ → Type 0
Within none n = Unit
Within (some m) n = n ≤ m

-- A latency bound is met: the latency is known, and not above it.
abbrev pub LatencyWithin : Option ℕ → Option ℕ → Type 0
LatencyWithin none l = Unit
LatencyWithin (some m) none = ⊥
LatencyWithin (some m) (some l) = l ≤ m

pub record Meets (b : Budget) (c : Cost) : Type 0 where
  pub finite : (declares b ≡ false) ⊎ (c.unbounded ≡ false)
  pub requests : Within b.requests c.max_requests
  pub parallel : Within b.parallel c.max_parallel
  pub hops : Within b.hops c.depth
  pub p99 : LatencyWithin b.p99_ms c.latency_ms
