-- ===== src/Compiler/Cost/Budgets/Loud.antt =====
-- The severity of what `check_budgets` reports.
use tired.Prelude.{
  ℕ, String, List, [], ◌∷◌, ◌++◌, Option, none, some, ◌≡◌, refl, true, ◌&&◌, ltb, Bool-cases, inl,
  inr,
}
use tired.Syntax.Items.{Budget}
use tired.Syntax.Diag.{Diagnostic, Diagnostics, is_error, error, with_help, with_note}
use tired.Syntax.Diag.Quiet.{IsLoud}
use tired.Compiler.Ir.{Flow, Route, Server}
use tired.Compiler.Deps.Numbered.{All-append}
use tired.Compiler.Cost.{Cost, request_cost}
use tired.Compiler.Cost.Budgets.{
  declares, report, over, over_latency, check_one, check_declared, check_flows, check_routes,
  check_servers, check_budgets,
}

join-IsLoud : (xs ys : Diagnostics) → IsLoud xs → IsLoud ys → IsLoud (xs ++ ys)
join-IsLoud = All-append (λ d. is_error d.severity ≡ true)

over-IsLoud :
    (o : Option ℕ) (n : ℕ) (d : ℕ → Diagnostic)
    → ((m : ℕ) → is_error (d m).severity ≡ true)
    → IsLoud (over o n d)
unfolding over
over-IsLoud none n d h = tt
over-IsLoud (some m) n d h = elim (Bool-cases (ltb m n)) [
  | inl e ↦ rw e (h m, tt)
  | inr e ↦ rw e tt
]

over_latency-IsLoud :
    (o l : Option ℕ) (late : ℕ → ℕ → Diagnostic) (unknown : Diagnostic)
    → ((x m : ℕ) → is_error (late x m).severity ≡ true)
    → is_error unknown.severity ≡ true
    → IsLoud (over_latency o l late unknown)
unfolding over_latency
over_latency-IsLoud none l late unknown h u = tt
over_latency-IsLoud (some m) none late unknown h u = (u, tt)
over_latency-IsLoud (some m) (some l) late unknown h u = elim (Bool-cases (ltb m l)) [
  | inl e ↦ rw e (h l m, tt)
  | inr e ↦ rw e tt
]

check_one-IsLoud : (what : String) (b : Budget) (c : Cost) → IsLoud (check_one what b c)
unfolding check_one report error with_help with_note
check_one-IsLoud what b c = elim (Bool-cases (c.unbounded && declares b)) [
  | inl e ↦ rw e (refl, tt)
  | inr e ↦ rw e (
      join-IsLoud (over b.requests c.max_requests _) _
        (over-IsLoud b.requests c.max_requests _ (λ m. refl))
        (join-IsLoud (over b.parallel c.max_parallel _) _
          (over-IsLoud b.parallel c.max_parallel _ (λ m. refl))
          (join-IsLoud (over b.hops c.depth _) _ (over-IsLoud b.hops c.depth _ (λ m. refl))
            (over_latency-IsLoud b.p99_ms c.latency_ms _ _ (λ x m. refl) refl))))
]

check_declared-IsLoud :
    (what : String) (o : Option Budget) (c : Cost) → IsLoud (check_declared what o c)
check_declared-IsLoud what none c = tt
check_declared-IsLoud what (some b) c = check_one-IsLoud what b c

check_flows-IsLoud : (flows fs : List Flow) → IsLoud (check_flows flows fs)
unfolding check_flows
check_flows-IsLoud flows [] = tt
check_flows-IsLoud flows (f ∷ fs) =
    join-IsLoud (check_declared _ f.budget (request_cost f.body flows)) _
      (check_declared-IsLoud _ f.budget (request_cost f.body flows)) (check_flows-IsLoud flows fs)

check_routes-IsLoud : (flows : List Flow) (rs : List Route) → IsLoud (check_routes flows rs)
unfolding check_routes
check_routes-IsLoud flows [] = tt
check_routes-IsLoud flows (r ∷ rs) =
    join-IsLoud (check_declared _ r.budget (request_cost r.body flows)) _
      (check_declared-IsLoud _ r.budget (request_cost r.body flows)) (check_routes-IsLoud flows rs)

check_servers-IsLoud : (flows : List Flow) (ss : List Server) → IsLoud (check_servers flows ss)
unfolding check_servers
check_servers-IsLoud flows [] = tt
check_servers-IsLoud flows (s ∷ ss) =
    join-IsLoud (check_routes flows s.routes) _ (check_routes-IsLoud flows s.routes)
      (check_servers-IsLoud flows ss)

pub check_budgets-IsLoud :
    (flows : List Flow) (servers : List Server) → IsLoud (check_budgets flows servers)
unfolding check_budgets
check_budgets-IsLoud flows servers =
    join-IsLoud (check_flows flows flows) _ (check_flows-IsLoud flows flows)
      (check_servers-IsLoud flows servers)
