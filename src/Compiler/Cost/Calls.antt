-- ===== src/Compiler/Cost/Calls.antt =====
-- The recursion over calls ends: more fuel than there are flows changes nothing.
use mathlib.Core.Path.{fun_ext}
use tired.Prelude.{
  ℕ, zero, suc, ◌+◌, ◌≤◌, ◌<◌, true, false, String, List, [], ◌∷◌, some, ◌≡◌, sym, ap, ◌∙◌, arith,
  eq_iff, str_eq, contains, length, if◌then◌else◌, Bool-cases, Option-cases, inl, inr,
}
use tired.Syntax.Ast.{Expr}
use tired.Compiler.Ir.{Flow, Body, store}
use tired.Compiler.Cost.{body_cost, call_name, find_flow, flow_call_cost, request_cost}

-- The flows whose names are not being visited.
abbrev unvisited : List Flow → List String → ℕ
unvisited [] v = 0
unvisited (f ∷ fs) v = if contains f.name v then unvisited fs v else suc (unvisited fs v)

unvisited-le-length : (fs : List Flow) → unvisited fs [] ≤ length fs
unvisited-le-length [] = omega arith
unvisited-le-length (f ∷ fs) = omega (arith, unvisited-le-length fs)

unvisited-cons :
    (fs : List Flow) (name : String) (v : List String) → unvisited fs (name ∷ v) ≤ unvisited fs v
unvisited-cons [] name v = omega arith
unvisited-cons (f ∷ fs) name v = ground (arith, unvisited-cons fs name v)

-- A visit uses up the flow that it finds.
unvisited-visit :
    (fs : List Flow) (name : String) (v : List String) (f : Flow)
    → find_flow name fs ≡ some f
    → contains name v ≡ false
    → unvisited fs (name ∷ v) < unvisited fs v
unfolding find_flow
unvisited-visit [] name v f e h = cc
unvisited-visit (g ∷ fs) name v f e h = elim (Bool-cases (str_eq g.name name)) [
  | inl same ↦
      (let q : g.name ≡ name = (eq_iff g.name name).0 same in
        let le = unvisited-cons fs name v in
        let here : contains g.name v ≡ false = rw q h in
        let there : contains g.name (name ∷ v) ≡ true = ground (arith, eq_iff name g.name) in
        ground arith)
  | inr other ↦
      (let less = unvisited-visit fs name v f (ground arith) h in
        ground (arith, eq_iff name g.name, eq_iff g.name name))
]

flow_call_cost-suc :
    (flows : List Flow) (fuel : ℕ) (v : List String) (e : Expr)
    → unvisited flows v ≤ fuel
    → flow_call_cost fuel flows v e ≡ flow_call_cost (suc fuel) flows v e
unfolding flow_call_cost
flow_call_cost-suc flows zero v e h = elim (Option-cases (call_name e)) [
  | inl q ↦ rw (q, flow_call_cost)
  | inr (name, q) ↦ elim (Bool-cases (contains name v)) [
    | inl seen ↦ rw (q, flow_call_cost, seen)
    | inr fresh ↦ elim (Option-cases (find_flow name flows)) [
      | inl missing ↦ rw (q, flow_call_cost, fresh, missing)
      | inr (f, found) ↦ absurd (omega (arith, unvisited-visit flows name v f found fresh))
    ]
  ]
]
flow_call_cost-suc flows (suc fuel) v e h = elim (Option-cases (call_name e)) [
  | inl q ↦ rw (q, flow_call_cost)
  | inr (name, q) ↦ elim (Bool-cases (contains name v)) [
    | inl seen ↦ rw (q, flow_call_cost, seen)
    | inr fresh ↦ elim (Option-cases (find_flow name flows)) [
      | inl missing ↦ rw (q, flow_call_cost, fresh, missing)
      | inr (f, found) ↦
          (let less = unvisited-visit flows name v f found fresh in
            let deeper = fun_ext (λ d. flow_call_cost-suc flows fuel (name ∷ v) d (omega arith)) in
            rw (q, flow_call_cost, fresh, found)
              (ap (λ calls. body_cost calls (store f.body)) deeper))
    ]
  ]
]

flow_call_cost-add :
    (flows : List Flow) (extra fuel : ℕ) (v : List String)
    → unvisited flows v ≤ fuel
    → flow_call_cost fuel flows v ≡ flow_call_cost (extra + fuel) flows v
flow_call_cost-add flows zero fuel v h = let q : fuel ≡ zero + fuel = omega arith in rw (← q)
flow_call_cost-add flows (suc extra) fuel v h =
    let q : suc extra + fuel ≡ suc (extra + fuel) = omega arith in
    let one = fun_ext (λ e. flow_call_cost-suc flows (extra + fuel) v e (omega arith)) in
    rw q (flow_call_cost-add flows extra fuel v h ∙ one)

-- The fuel of `request_cost` is enough: with any more of it the cost is the same, so the analysis
-- of mutually recursive flows ends because a flow that is being visited is not entered again.
pub request_cost-fuel :
    (b : Body) (flows : List Flow) (extra : ℕ)
    → body_cost (flow_call_cost (extra + length flows) flows []) (store b) ≡ request_cost b flows
unfolding request_cost
request_cost-fuel b flows extra =
    ap (λ calls. body_cost calls (store b))
      (sym (flow_call_cost-add flows extra (length flows) [] (unvisited-le-length flows)))
