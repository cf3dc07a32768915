-- ===== src/Compiler/BackEnd/Accepts.antt =====
-- Which programs come through the back end, and how.
use tired.Prelude.{
  ℕ, String, [], ◌++◌, Option, some, ◌≡◌, ◌↔◌, refl, ◌∙◌, ap, Bool, false, ◌||◌, arith, All,
  Bool-cases, inl, inr,
}
use tired.Syntax.Ast.{ℤ}
use tired.Syntax.Diag.{Diagnostics, has_errors, extend}
use tired.Syntax.Diag.Quiet.{IsQuiet, has_errors-IsQuiet, IsLoud-nil, has_errors-append}
use tired.Syntax.Items.{Program}
use tired.Compiler.Ir.Everywhere.{Everywhere}
use tired.Compiler.Lower.Programs.{Lowered, EachBody, lower_program}
use tired.Compiler.Ir.Deep.{Deep}
use tired.Compiler.Optimize.Settled.{IsReady}
use tired.Compiler.Optimize.Driver.Sound.{IsScheduled}
use tired.Compiler.Optimize.Driver.Program.{Follows-IsReady, optimize-IsScheduled}
use tired.Compiler.Lower.Programs.Annotated.{
  EachBody-map, IsAnnotated, IsDeclared, lower_program-IsAnnotated,
}
use tired.Compiler.Cost.{request_cost}
use tired.Compiler.Cost.Budgets.{check_budgets}
use tired.Compiler.Cost.Budgets.Met.{MeetsDeclared, check_budgets-nil}
use tired.Compiler.Cost.Budgets.Loud.{check_budgets-IsLoud}
use tired.Compiler.BackEnd.{optimized, verdict, back_end}
use tired.Compiler.BackEnd.Warnings.{optimize-IsQuiet}

-- Every declared budget is met, by the costs of the bodies as they are here.
abbrev pub AllMet : Lowered → Type 0
AllMet l =
    All (λ f. MeetsDeclared f.budget (request_cost f.body l.flows)) l.flows
    × All (λ s. All (λ r. MeetsDeclared r.budget (request_cost r.body l.flows)) s.routes) l.servers

errors_of_three :
    (a b c : Diagnostics) → IsQuiet b → has_errors ((a ++ b) ++ c) ≡ has_errors a || has_errors c
errors_of_three a b c h =
    let e = has_errors-append (a ++ b) c in
    let k = has_errors-append a b in let q = has_errors-IsQuiet b h in ground (arith, e, k, q)

verdict-some :
    (l : Lowered) (all : Diagnostics) → ((verdict l all).0 ≡ some l) ↔ (has_errors all ≡ false)
unfolding verdict
verdict-some l all = elim (Bool-cases (has_errors all)) [
  | inl e ↦ (rw e ((λ q. cc), (λ q. cc)))
  | inr e ↦ (λ q. e, λ q. rw e refl)
]

-- What is left to say of the errors, when those of the budgets are as they are.
iff_budgets :
    (a b c : Bool) (P : Type 0) → a ≡ (b || c) → (c ≡ false) ↔ P → (a ≡ false) ↔ ((b ≡ false) × P)
iff_budgets a b c P e iff = (
  λ q. (ground arith, iff.0 (ground arith)),
  λ h. let k = iff.1 h.1 in let j = h.0 in ground arith,
)

budgets-errors : (l : Lowered) → (has_errors (check_budgets l.flows l.servers) ≡ false) ↔ AllMet l
budgets-errors l =
    let iff = check_budgets-nil l.flows l.servers in
    (
      λ q. iff.0 (IsLoud-nil _ (check_budgets-IsLoud l.flows l.servers) q),
      λ h. ap has_errors (iff.1 h) ∙ has_errors-IsQuiet [] tt,
    )

module _ (show_float : ℕ → String) (parse_int : String → Option ℤ)
    (to_uppercase : String → String) where
  optimized-IsQuiet : (l : Lowered) → IsQuiet (optimized show_float parse_int to_uppercase l).1
  unfolding optimized
  optimized-IsQuiet l = optimize-IsQuiet show_float parse_int l.main l.flows l.tests l.servers

  -- The back end returns the optimized program exactly when no error was reported before it and every
  -- flow and route with a budget meets it, after optimization, at the request cost that the program
  -- computes for it, in which sums of requests, hops and milliseconds wrap at 2^64.
  pub back_end-accepts :
      (p : Program) (diags : Diagnostics)
      → let l = (optimized show_float parse_int to_uppercase (lower_program to_uppercase p)).0 in
        ((back_end show_float parse_int to_uppercase p diags).0 ≡ some l)
        ↔ ((has_errors diags ≡ false) × AllMet l)
  unfolding back_end extend
  back_end-accepts p diags =
      let o = optimized show_float parse_int to_uppercase (lower_program to_uppercase p) in
      let l = o.0 in
      let budgets = check_budgets l.flows l.servers in
      let all = (diags ++ o.1) ++ budgets in
      let e =
        errors_of_three diags o.1 budgets (optimized-IsQuiet (lower_program to_uppercase p)) in
      let v = verdict-some l all in
      let w =
        iff_budgets (has_errors all) (has_errors diags) (has_errors budgets) (AllMet l) e
          (budgets-errors l) in
      (λ q. w.0 (v.0 q), λ h. v.1 (w.1 h))

  -- Every body of the optimized program is well-formed and scheduled at every depth.
  pub optimized-IsScheduled :
      (p : Program)
      → EachBody
          (Everywhere IsScheduled)
          (optimized show_float parse_int to_uppercase (lower_program to_uppercase p)).0
  unfolding optimized
  optimized-IsScheduled p =
      let l = lower_program to_uppercase p in
      let ready =
        EachBody-map (IsAnnotated p.items) (Deep IsReady) l (Follows-IsReady (IsDeclared p.items))
          (lower_program-IsAnnotated to_uppercase p) in
      let (m, f, t, s) =
        optimize-IsScheduled show_float parse_int l.main l.flows l.tests l.servers ready.main
          ready.flows ready.tests ready.servers in
      record { main = m; flows = f; tests = t; servers = s }
