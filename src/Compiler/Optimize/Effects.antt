-- ===== src/Compiler/Optimize/Effects.antt =====
-- What a body does in order: its effects, and how many requests it holds.
use tired.Prelude.{
  ℕ, suc, ◌+◌, Bool, String, Option, List, [], ◌∷◌, ◌++◌, ◌≡◌, refl, ap, arith, if◌then◌else◌,
  Bool-cases, inl, inr,
}
use tired.Syntax.Span.{Span}
use tired.Compiler.Ir.{Node, NodeKind, is_fetch}
use tired.Compiler.Deps.{Seen, compute_deps, deps_from}

-- What a node holds but for its id and its dependencies.
abbrev Content : Type 0
Content = NodeKind × (Option String × (List String × (Bool × Span)))

abbrev content : Node → Content
content n = (n.kind, (n.binding, (n.reads, (n.live, n.span))))

-- The content of the effects, in the order of the list.
abbrev pub effects_of : List Node → List Content
effects_of [] = []
effects_of (n ∷ ns) = if n.effect then content n ∷ effects_of ns else effects_of ns

abbrev pub requests : List Node → ℕ
requests [] = 0
requests (n ∷ ns) = (if is_fetch n.kind then 1 else 0) + requests ns

pub effects_of-append : (xs ys : List Node) → effects_of (xs ++ ys) ≡ effects_of xs ++ effects_of ys
effects_of-append [] ys = refl
effects_of-append (x ∷ xs) ys = ground (arith, effects_of-append xs ys)

pub requests-append : (xs ys : List Node) → requests (xs ++ ys) ≡ requests xs + requests ys
requests-append [] ys = omega arith
requests-append (x ∷ xs) ys = omega (arith, requests-append xs ys)

effects_of-deps_from :
    (i : ℕ) (seen : Seen) (ns : List Node) → effects_of (deps_from i seen ns) ≡ effects_of ns
unfolding deps_from
effects_of-deps_from i seen [] = refl
effects_of-deps_from i seen (n ∷ ns) = elim (Bool-cases n.effect) [
  | inl e ↦ rw e (ap (λ ks. content n ∷ ks) (effects_of-deps_from (suc i) _ ns))
  | inr e ↦ rw e (effects_of-deps_from (suc i) _ ns)
]

pub effects_of-compute_deps : (ns : List Node) → effects_of (compute_deps ns) ≡ effects_of ns
unfolding compute_deps
effects_of-compute_deps ns = effects_of-deps_from 0 _ ns

requests-deps_from :
    (i : ℕ) (seen : Seen) (ns : List Node) → requests (deps_from i seen ns) ≡ requests ns
unfolding deps_from
requests-deps_from i seen [] = refl
requests-deps_from i seen (n ∷ ns) =
    ap (λ r. (if is_fetch n.kind then 1 else 0) + r) (requests-deps_from _ _ ns)

pub requests-compute_deps : (ns : List Node) → requests (compute_deps ns) ≡ requests ns
unfolding compute_deps
requests-compute_deps ns = requests-deps_from 0 _ ns
