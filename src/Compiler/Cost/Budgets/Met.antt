-- ===== src/Compiler/Cost/Budgets/Met.antt =====
-- What `check_budgets` of crates/hale-compiler/src/cost.rs accepts.
use tired.Prelude.{
  ℕ, Bool, true, false, ◌&&◌, String, List, [], ◌∷◌, ◌++◌, Option, none, some, ◌≡◌, refl, ◌↔◌, ◌⊎◌,
  inl, inr, arith, if◌then◌else◌, All,
}
use tired.Syntax.Diag.{Diagnostic}
use tired.Syntax.Items.{Budget}
use tired.Compiler.Ir.{Flow, Server, Route}
use tired.Compiler.Cost.{Cost, request_cost}
use tired.Compiler.Cost.Budgets.{
  over, over_latency, check_one, check_declared, check_flows, check_routes, check_servers,
  check_budgets, Within, LatencyWithin, Meets,
}

over-nil : (o : Option ℕ) (n : ℕ) (d : ℕ → Diagnostic) → (over o n d ≡ []) ↔ Within o n
unfolding over
over-nil none n d = (λ _. tt, λ _. refl)
over-nil (some m) n d = ground arith

over_latency-nil :
    (o l : Option ℕ) (late : ℕ → ℕ → Diagnostic) (unknown : Diagnostic)
    → (over_latency o l late unknown ≡ []) ↔ LatencyWithin o l
unfolding over_latency
over_latency-nil none l late unknown = (λ _. tt, λ _. refl)
over_latency-nil (some m) none late unknown = (λ e. cc, λ h. absurd h)
over_latency-nil (some m) (some l) late unknown = ground arith

append-eq-nil {ℓ} : {A : Type ℓ} (xs ys : List A) → (xs ++ ys ≡ []) ↔ ((xs ≡ []) × (ys ≡ []))
append-eq-nil [] ys = (λ e. (refl, e), λ h. h.1)
append-eq-nil (x ∷ xs) ys = (λ e. cc, λ h. cc h.0)

guarded-nil {ℓ} :
    {A : Type ℓ} (g : Bool) (x : A) (rest : List A)
    → ((if g then x ∷ [] else rest) ≡ []) ↔ ((g ≡ false) × (rest ≡ []))
guarded-nil true x rest = (λ e. cc, λ h. cc h.0)
guarded-nil false x rest = (λ e. (refl, e), λ h. h.1)

and-false : (a b : Bool) → (a && b ≡ false) ↔ ((b ≡ false) ⊎ (a ≡ false))
and-false true true = (λ e. cc, λ h. elim h [ inl e ↦ e | inr e ↦ e ])
and-false true false = (λ e. inl refl, λ _. refl)
and-false false b = (λ e. inr refl, λ _. refl)

-- `check_one` reports nothing exactly when every declared bound is met: no request inside a loop,
-- at most so many requests, concurrent requests and hops, and a known latency within the bound.
pub check_one-nil : (what : String) (b : Budget) (c : Cost) → (check_one what b c ≡ []) ↔ Meets b c
unfolding check_one
check_one-nil what b c = (
  λ e.
      let h = (guarded-nil _ _ _).0 e in
      let r = (append-eq-nil _ _).0 h.1 in
      let s = (append-eq-nil _ _).0 r.1 in
      let t = (append-eq-nil _ _).0 s.1 in
      record {
        finite = (and-false _ _).0 h.0;
        requests = (over-nil _ _ _).0 r.0;
        parallel = (over-nil _ _ _).0 s.0;
        hops = (over-nil _ _ _).0 t.0;
        p99 = (over_latency-nil _ _ _ _).0 t.1;
      },
  λ m. (guarded-nil _ _ _).1 (
    (and-false _ _).1 m.finite,
    (append-eq-nil _ _).1 (
      (over-nil _ _ _).1 m.requests,
      (append-eq-nil _ _).1 (
        (over-nil _ _ _).1 m.parallel,
        (append-eq-nil _ _).1 ((over-nil _ _ _).1 m.hops, (over_latency-nil _ _ _ _).1 m.p99),
      ),
    ),
  ),
)

-- The budget is met, where one is declared.
abbrev pub MeetsDeclared : Option Budget → Cost → Type 0
MeetsDeclared none c = Unit
MeetsDeclared (some b) c = Meets b c

check_declared-nil :
    (what : String) (o : Option Budget) (c : Cost)
    → (check_declared what o c ≡ []) ↔ MeetsDeclared o c
check_declared-nil what none c = (λ _. tt, λ _. refl)
check_declared-nil what (some b) c = check_one-nil what b c

iff-append {ℓ κ} :
    {A : Type ℓ} {P Q : Type κ} (xs ys : List A)
    → (xs ≡ []) ↔ P
    → (ys ≡ []) ↔ Q
    → (xs ++ ys ≡ []) ↔ (P × Q)
iff-append xs ys p q = (
  λ e. let h = (append-eq-nil xs ys).0 e in (p.0 h.0, q.0 h.1),
  λ h. (append-eq-nil xs ys).1 (p.1 h.0, q.1 h.1),
)

check_flows-nil :
    (flows fs : List Flow)
    → (check_flows flows fs ≡ []) ↔ All (λ f. MeetsDeclared f.budget (request_cost f.body flows)) fs
unfolding check_flows
check_flows-nil flows [] = (λ _. tt, λ _. refl)
check_flows-nil flows (f ∷ fs) =
    iff-append _ _ (check_declared-nil _ f.budget _) (check_flows-nil flows fs)

check_routes-nil :
    (flows : List Flow) (rs : List Route)
    → (check_routes flows rs ≡ [])
      ↔ All (λ r. MeetsDeclared r.budget (request_cost r.body flows)) rs
unfolding check_routes
check_routes-nil flows [] = (λ _. tt, λ _. refl)
check_routes-nil flows (r ∷ rs) =
    iff-append _ _ (check_declared-nil _ r.budget _) (check_routes-nil flows rs)

check_servers-nil :
    (flows : List Flow) (ss : List Server)
    → (check_servers flows ss ≡ [])
      ↔ All (λ s. All (λ r. MeetsDeclared r.budget (request_cost r.body flows)) s.routes) ss
unfolding check_servers
check_servers-nil flows [] = (λ _. tt, λ _. refl)
check_servers-nil flows (s ∷ ss) =
    iff-append _ _ (check_routes-nil flows s.routes) (check_servers-nil flows ss)

-- `check_budgets` reports nothing exactly when each flow and each route of each server whose
-- declaration has a budget meets every bound of it at its own request cost, as the program computes
-- it: sums of requests, hops and milliseconds wrap at 2^64.
pub check_budgets-nil :
    (flows : List Flow) (servers : List Server)
    → (check_budgets flows servers ≡ []) ↔ (
        All (λ f. MeetsDeclared f.budget (request_cost f.body flows)) flows
        × All (λ s. All (λ r. MeetsDeclared r.budget (request_cost r.body flows)) s.routes) servers)
unfolding check_budgets
check_budgets-nil flows servers =
    iff-append _ _ (check_flows-nil flows flows) (check_servers-nil flows servers)
