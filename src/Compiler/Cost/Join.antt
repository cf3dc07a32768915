-- ===== src/Compiler/Cost/Join.antt =====
-- Alternatives are joined: a `match` costs the least bound of all its arms.
use tired.Prelude.{ℕ, ◌≤◌, true, false, Option, none, some, ◌≡◌, refl, ◌↔◌, ◌⊎◌, inl, arith}
use tired.Syntax.Ast.{Expr}
use tired.Compiler.Ir.{Arms, no_arms, arm_and}
use tired.Compiler.Cost.{Cost, no_cost, lat_max, join_alt, arm_cost, arms_cost}

-- An unknown latency is above all known ones.
abbrev pub LatencyAtMost : Option ℕ → Option ℕ → Type 0
LatencyAtMost a none = Unit
LatencyAtMost none (some y) = ⊥
LatencyAtMost (some x) (some y) = x ≤ y

pub record AtMost (a b : Cost) : Type 0 where
  pub requests : a.max_requests ≤ b.max_requests
  pub parallel : a.max_parallel ≤ b.max_parallel
  pub hops : a.depth ≤ b.depth
  pub latency : LatencyAtMost a.latency_ms b.latency_ms
  pub bounded : (a.unbounded ≡ false) ⊎ (b.unbounded ≡ true)

lat_max-least :
    (x y z : Option ℕ) → LatencyAtMost (lat_max x y) z ↔ (LatencyAtMost x z × LatencyAtMost y z)
unfolding lat_max
lat_max-least x y none = (λ _. (tt, tt), λ _. tt)
lat_max-least none y (some z) = (λ h. absurd h, λ h. h.0)
lat_max-least (some x) none (some z) = (λ h. absurd h, λ h. h.1)
lat_max-least (some x) (some y) (some z) = (λ h. omega arith, λ h. omega arith)

-- A cost bounds the join of two costs exactly if it bounds both.
pub join_alt-least : (a b c : Cost) → AtMost (join_alt a b) c ↔ (AtMost a c × AtMost b c)
unfolding join_alt
join_alt-least a b c =
    let lat = lat_max-least a.latency_ms b.latency_ms c.latency_ms in
    (
      λ h. (
        record {
          requests = (let q = h.requests in omega arith);
          parallel = (let q = h.parallel in omega arith);
          hops = (let q = h.hops in omega arith);
          latency = (lat.0 h.latency).0;
          bounded = (let q = h.bounded in ground arith);
        },
        record {
          requests = (let q = h.requests in omega arith);
          parallel = (let q = h.parallel in omega arith);
          hops = (let q = h.hops in omega arith);
          latency = (lat.0 h.latency).1;
          bounded = (let q = h.bounded in ground arith);
        },
      ),
      λ (p, q). record {
        requests = (let x = p.requests in let y = q.requests in omega arith);
        parallel = (let x = p.parallel in let y = q.parallel in omega arith);
        hops = (let x = p.hops in let y = q.hops in omega arith);
        latency = lat.1 (p.latency, q.latency);
        bounded = (let x = p.bounded in let y = q.bounded in ground arith);
      },
    )

abbrev pub EachArm : (Cost → Type 0) → (Expr → Cost) → Arms → Type 0
EachArm P calls no_arms = Unit
EachArm P calls (arm_and _ b arms) = P (arm_cost calls b) × EachArm P calls arms

arms_cost_from :
    (calls : Expr → Cost) (arms : Arms) (acc c : Cost)
    → AtMost (arms_cost calls arms acc) c ↔ (AtMost acc c × EachArm (λ d. AtMost d c) calls arms)
unfolding arms_cost
arms_cost_from calls no_arms acc c = (λ h. (h, tt), λ h. h.0)
arms_cost_from calls (arm_and p b arms) acc c =
    let ih = arms_cost_from calls arms (join_alt acc (arm_cost calls b)) c in
    let join = join_alt-least acc (arm_cost calls b) c in
    (
      λ h. let (both, rest) = ih.0 h in let (x, y) = join.0 both in (x, (y, rest)),
      λ (x, (y, rest)). ih.1 (join.1 (x, y), rest),
    )

-- A cost bounds a `match` exactly if it bounds each of its arms.
pub arms_cost-least :
    (calls : Expr → Cost) (arms : Arms) (c : Cost)
    → AtMost (arms_cost calls arms no_cost) c ↔ EachArm (λ d. AtMost d c) calls arms
arms_cost-least calls arms c =
    let q = arms_cost_from calls arms no_cost c in (λ h. (q.0 h).1, λ h. q.1 (no_cost-least c, h))
  where
    no_cost-least : (c : Cost) → AtMost no_cost c
    no_cost-least c = record {
      requests = omega arith;
      parallel = omega arith;
      hops = omega arith;
      latency = elim c.latency_ms as (λ l. LatencyAtMost (some 0) l) [
        | none ↦ tt
        | some x ↦ omega arith
      ];
      bounded = inl refl;
    }
