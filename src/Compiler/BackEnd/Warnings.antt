-- ===== src/Compiler/BackEnd/Warnings.antt =====
-- The severity of what the optimizer reports.
use tired.Prelude.{
  ℕ, zero, suc, String, List, [], ◌∷◌, ◌++◌, Option, ◌≡◌, refl, false, Bool-cases, inl, inr,
}
use tired.Syntax.Span.{Span}
use tired.Syntax.Ast.{ℤ}
use tired.Syntax.Diag.{Diagnostics, is_error, warning, with_note}
use tired.Syntax.Diag.Quiet.{IsQuiet}
use tired.Compiler.Ir
use tired.Compiler.Ir.{Node, NodeKind, Arms, Body, Stored, Flow, Test, Server, Route, load}
use tired.Compiler.Ir.Depth.{list_depth}
use tired.Compiler.Deps.Numbered.{All-append}
use tired.Compiler.Optimize.Dedup.{
  Rewrite, rewrite_warnings, warn_kind, warn_at, duplicate_warning, dedup_requests, dedup_warnings,
  update, alias_node,
}
use tired.Compiler.Optimize.Liveness.{
  dead_requests, report_dead, dead_request, liveness, liveness_warnings,
}
use tired.Compiler.Fusion.Requests.{fuse_requests, plan_requests}
use tired.Compiler.Fusion.Requests.Quiet.{plan_requests-IsQuiet}
use tired.Compiler.Fusion.Loops.{fuse_loops, loop_warnings, next_seq}
use tired.Compiler.Fusion.Loops.Quiet.{loop_warnings-IsQuiet}
use tired.Compiler.Optimize.Driver.{
  Pass, on_stored, on_arms, on_kind, on_nodes, passes, pass_warnings, optimize_fuel, optimize_body,
  optimize_flows, optimize_tests, optimize_routes, optimize_servers, optimize,
}

join-IsQuiet : (xs ys : Diagnostics) → IsQuiet xs → IsQuiet ys → IsQuiet (xs ++ ys)
join-IsQuiet = All-append (λ d. is_error d.severity ≡ false)

warn_kind-IsQuiet :
    (k : NodeKind) (sp : Span) (ds : Diagnostics) → IsQuiet ds → IsQuiet (warn_kind k sp ds)
unfolding duplicate_warning warning with_note
warn_kind-IsQuiet (Ir.fetch f) sp ds h = (refl, h)
warn_kind-IsQuiet _ sp ds h = h

warn_at-IsQuiet :
    (i : ℕ) (ns : List Node) (ds : Diagnostics) → IsQuiet ds → IsQuiet (warn_at i ns ds)
unfolding warn_at
warn_at-IsQuiet i [] ds h = h
warn_at-IsQuiet zero (n ∷ ns) ds h = warn_kind-IsQuiet n.kind n.span ds h
warn_at-IsQuiet (suc i) (n ∷ ns) ds h = warn_at-IsQuiet i ns ds h

rewrite_warnings-IsQuiet : (rs : List Rewrite) (ns : List Node) → IsQuiet (rewrite_warnings rs ns)
unfolding rewrite_warnings
rewrite_warnings-IsQuiet [] ns = tt
rewrite_warnings-IsQuiet (r ∷ rs) ns =
    warn_at-IsQuiet r.alias ns _ (rewrite_warnings-IsQuiet rs (update r.alias (alias_node r) ns))

report_dead-IsQuiet :
    (n : Node) (k : NodeKind) (ds : Diagnostics) → IsQuiet ds → IsQuiet (report_dead n k ds)
unfolding report_dead dead_request warning with_note
report_dead-IsQuiet n (Ir.fetch f) ds h = elim (Bool-cases n.live) [
  | inl e ↦ rw e h
  | inr e ↦ rw e (refl, h)
]
report_dead-IsQuiet n _ ds h = h

dead_requests-IsQuiet : (ns : List Node) → IsQuiet (dead_requests ns)
unfolding dead_requests
dead_requests-IsQuiet [] = tt
dead_requests-IsQuiet (n ∷ ns) = report_dead-IsQuiet n n.kind _ (dead_requests-IsQuiet ns)

module _ (f : Pass) (quiet : (b : Body) (seq : ℕ) → IsQuiet (f b seq).1) where
  on_arms-IsQuiet : (arms : Arms) (seq : ℕ) → IsQuiet (on_arms f arms seq).1
  unfolding on_arms on_stored
  on_arms-IsQuiet Ir.no_arms seq = tt
  on_arms-IsQuiet (Ir.arm_and p (Ir.body b) arms) seq =
      join-IsQuiet (f (load b) seq).1 _ (quiet (load b) seq)
        (on_arms-IsQuiet arms (f (load b) seq).2)
  on_arms-IsQuiet (Ir.arm_and p (Ir.value e) arms) seq = on_arms-IsQuiet arms seq
  on_arms-IsQuiet (Ir.arm_and p (Ir.retry e) arms) seq = on_arms-IsQuiet arms seq

  on_kind-IsQuiet : (k : NodeKind) (seq : ℕ) → IsQuiet (on_kind f k seq).1
  unfolding on_kind on_stored
  on_kind-IsQuiet (Ir.match_node e arms sp) seq = on_arms-IsQuiet arms seq
  on_kind-IsQuiet (Ir.for_each v e b r sp) seq = quiet (load b) seq
  on_kind-IsQuiet _ seq = tt

  on_nodes-IsQuiet : (ns : List Node) (seq : ℕ) → IsQuiet (on_nodes f ns seq).1
  unfolding on_nodes
  on_nodes-IsQuiet [] seq = tt
  on_nodes-IsQuiet (n ∷ ns) seq =
      join-IsQuiet (on_kind f n.kind seq).1 _ (on_kind-IsQuiet n.kind seq)
        (on_nodes-IsQuiet ns (on_kind f n.kind seq).2)

module _ (show_float : ℕ → String) (parse_int : String → Option ℤ) where
  pass_warnings-IsQuiet : (seq : ℕ) (b : Body) → IsQuiet (pass_warnings show_float parse_int seq b)
  unfolding pass_warnings dedup_warnings liveness_warnings
  pass_warnings-IsQuiet seq b =
      let looped = fuse_loops seq b in
      let unique = dedup_requests show_float looped in
      let fused = fuse_requests show_float parse_int unique in
      join-IsQuiet (loop_warnings b.nodes) _ (loop_warnings-IsQuiet b.nodes) (
        join-IsQuiet (dedup_warnings show_float looped) _ (rewrite_warnings-IsQuiet _ looped.nodes)
          (join-IsQuiet (plan_requests show_float parse_int unique.nodes).warnings _
            (plan_requests-IsQuiet show_float parse_int unique.nodes)
            (dead_requests-IsQuiet (liveness fused).nodes)))

  optimize_fuel-IsQuiet :
      (fuel : ℕ) (b : Body) (seq : ℕ) → IsQuiet (optimize_fuel show_float parse_int fuel b seq).1
  unfolding optimize_fuel
  optimize_fuel-IsQuiet zero b seq = tt
  optimize_fuel-IsQuiet (suc fuel) b seq =
      join-IsQuiet (pass_warnings show_float parse_int seq b) _ (pass_warnings-IsQuiet seq b) (
        on_nodes-IsQuiet (optimize_fuel show_float parse_int fuel) (optimize_fuel-IsQuiet fuel)
          (passes show_float parse_int seq b).nodes (next_seq seq b))

  body-IsQuiet : (b : Body) (seq : ℕ) → IsQuiet (optimize_body show_float parse_int b seq).1
  unfolding optimize_body
  body-IsQuiet b seq = optimize_fuel-IsQuiet (suc (list_depth b.nodes)) b seq

  flows-IsQuiet :
      (fs : List Flow) (seq : ℕ) → IsQuiet (optimize_flows show_float parse_int fs seq).1
  unfolding optimize_flows
  flows-IsQuiet [] seq = tt
  flows-IsQuiet (f ∷ fs) seq =
      join-IsQuiet (optimize_body show_float parse_int f.body seq).1 _ (body-IsQuiet f.body seq)
        (flows-IsQuiet fs _)

  tests-IsQuiet :
      (ts : List Test) (seq : ℕ) → IsQuiet (optimize_tests show_float parse_int ts seq).1
  unfolding optimize_tests
  tests-IsQuiet [] seq = tt
  tests-IsQuiet (t ∷ ts) seq =
      join-IsQuiet (optimize_body show_float parse_int t.body seq).1 _ (body-IsQuiet t.body seq)
        (tests-IsQuiet ts _)

  routes-IsQuiet :
      (rs : List Route) (seq : ℕ) → IsQuiet (optimize_routes show_float parse_int rs seq).1
  unfolding optimize_routes
  routes-IsQuiet [] seq = tt
  routes-IsQuiet (r ∷ rs) seq =
      join-IsQuiet (optimize_body show_float parse_int r.body seq).1 _ (body-IsQuiet r.body seq)
        (routes-IsQuiet rs _)

  servers-IsQuiet :
      (ss : List Server) (seq : ℕ) → IsQuiet (optimize_servers show_float parse_int ss seq).1
  unfolding optimize_servers
  servers-IsQuiet [] seq = tt
  servers-IsQuiet (s ∷ ss) seq =
      join-IsQuiet (optimize_routes show_float parse_int s.routes seq).1 _
        (routes-IsQuiet s.routes seq) (servers-IsQuiet ss _)

  -- Every diagnostic of the optimizer is a warning.
  pub optimize-IsQuiet :
      (main : Body) (flows : List Flow) (tests : List Test) (servers : List Server)
      → IsQuiet (optimize show_float parse_int main flows tests servers).4
  unfolding optimize
  optimize-IsQuiet main flows tests servers =
      let a = (optimize_body show_float parse_int main 0).2 in
      let fs = optimize_flows show_float parse_int flows a in
      let ts = optimize_tests show_float parse_int tests fs.2 in
      join-IsQuiet (optimize_body show_float parse_int main 0).1 _ (body-IsQuiet main 0) (
        join-IsQuiet fs.1 _ (flows-IsQuiet flows a)
          (join-IsQuiet ts.1 _ (tests-IsQuiet tests fs.2) (servers-IsQuiet servers ts.2)))
