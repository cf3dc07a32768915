-- ===== src/Compiler/Optimize/Chained.antt =====
-- The chain of effects that `compute_deps` makes, and that the passes of
-- crates/hale-compiler/src/optimize.rs keep it.
use tired.Prelude.{
  ℕ, zero, suc, ◌≤◌, ◌<◌, Bool, true, false, List, [], Option, none, some, ◌≡◌, refl, sym, ◌∙◌, ap,
  arith, inl, inr, get_elem?, mem_nat, Option-cases, Bool-cases, dec_lt, not, str_eq, subst, All,
  String, ◌∷◌,
}
use tired.Compiler.Ir
use tired.Compiler.Ir.{Node, Body, NodeKind, FetchIr}
use tired.Compiler.Deps.{compute_deps}
use tired.Compiler.Deps.Meaning.{test_at, is_effect, IsLastBefore, compute_deps-edges}
use tired.Compiler.Deps.Wired.{
  IsWired, deps_of, deps_of-some, test_at-some, test_at-none, compute_deps-none,
}
use tired.Compiler.Lower.Sound.{NodeRule}
use tired.Compiler.Optimize.Liveness.{liveness}
use tired.Compiler.Optimize.Liveness.Correct.{liveness-Observed}
use tired.Compiler.Optimize.Wired.{liveness-none}
use tired.Compiler.Optimize.Dedup.{Rewrite, dedup_nodes, is_get, alias_kind, alias_node}
use tired.Compiler.Optimize.Dedup.Scan.{dedup_at, apply-none, rewritten}
use tired.Compiler.Optimize.Dedup.Unique.{dedup_keeps}

-- Each effect with one before it has an edge to an effect that is no earlier than that one.
pub record IsChained (ns : List Node) : Type 0 where
  pub chained :
      (i j : ℕ)
      → i < j
      → test_at is_effect ns i ≡ true
      → test_at is_effect ns j ≡ true
      → (d : ℕ) × (i ≤ d) × (test_at is_effect ns d ≡ true) × (mem_nat d (deps_of ns j) ≡ true)

last_before :
    (p : Node → Bool) (ns : List Node) (i j : ℕ)
    → i < j
    → test_at p ns i ≡ true
    → (d : ℕ) × (i ≤ d) × IsLastBefore p ns j d
last_before p ns i zero lt at_i = absurd (omega arith)
last_before p ns i (suc j) lt at_i = elim (Bool-cases (test_at p ns j)) [
  | inl here ↦ (
    j,
    omega arith,
    record { before = omega arith; passes = here; none_later = λ k a b. absurd (omega arith) },
  )
  | inr other ↦ elim (dec_lt i j) [
    | yes earlier ↦
        (let (d, le, last) = last_before p ns i j earlier at_i in
          (
            d,
            le,
            record {
              before = (let q = last.before in omega arith);
              passes = last.passes;
              none_later = λ k a b. elim (dec_lt k j) [
                | yes old ↦ last.none_later k a old
                | no new ↦ (let same : k ≡ j = omega arith in rw same other)
              ];
            },
          ))
    | no same ↦ (let q : i ≡ j = omega arith in absurd (cc (ap (test_at p ns) q)))
  ]
]

pub effect_at :
    (ns : List Node) (j : ℕ)
    → test_at is_effect ns j ≡ true
    → (n : Node) × (get_elem? ns j ≡ some n) × (n.effect ≡ true)
effect_at ns j t = elim (Option-cases (get_elem? ns j)) [
  | inl e ↦ absurd (cc (test_at-none is_effect ns j e))
  | inr (n, e) ↦ (n, e, sym (test_at-some is_effect ns j n e) ∙ t)
]

compute_deps-effect :
    (ns : List Node) (j : ℕ) → test_at is_effect (compute_deps ns) j ≡ test_at is_effect ns j
compute_deps-effect ns j = elim (Option-cases (get_elem? ns j)) [
  | inl e ↦
      test_at-none is_effect (compute_deps ns) j (compute_deps-none ns j e)
      ∙ sym (test_at-none is_effect ns j e)
  | inr (n, e) ↦
      (let (ds, out, _) = compute_deps-edges ns j n e in
        test_at-some is_effect (compute_deps ns) j _ out ∙ sym (test_at-some is_effect ns j n e))
]

pub compute_deps-IsChained : (ns : List Node) → IsChained (compute_deps ns)
compute_deps-IsChained ns = record {
  chained = λ i j lt at_i at_j.
      let (n, e, eff) = effect_at ns j (sym (compute_deps-effect ns j) ∙ at_j) in
      let (d, le, last) = last_before is_effect ns i j lt (sym (compute_deps-effect ns i) ∙ at_i) in
      let (ds, out, edges) = compute_deps-edges ns j n e in
      (
        d,
        le,
        compute_deps-effect ns d ∙ last.passes,
        rw (deps_of-some (compute_deps ns) j _ out)
            ((edges d).1 (record { reason = inr (eff, last) })),
      );
}

pub liveness-effect :
    (b : Body) (j : ℕ)
    → IsWired b.nodes
    → test_at is_effect (liveness b).nodes j ≡ test_at is_effect b.nodes j
liveness-effect b j w = elim (Option-cases (get_elem? b.nodes j)) [
  | inl e ↦
      test_at-none is_effect (liveness b).nodes j (liveness-none b j e)
      ∙ sym (test_at-none is_effect b.nodes j e)
  | inr (n, e) ↦
      (let (l, out, _) = liveness-Observed b j n w e in
        test_at-some is_effect (liveness b).nodes j _ out
        ∙ sym (test_at-some is_effect b.nodes j n e))
]

pub liveness-IsChained :
    (b : Body) → IsWired b.nodes → IsChained b.nodes → IsChained (liveness b).nodes
liveness-IsChained b w c = record {
  chained = λ i j lt at_i at_j.
      let (n, e, eff) = effect_at b.nodes j (sym (liveness-effect b j w) ∙ at_j) in
      let (l, out, _) = liveness-Observed b j n w e in
      let (d, le, at_d, m) =
        c.chained i j lt (sym (liveness-effect b i w) ∙ at_i)
          (sym (liveness-effect b j w) ∙ at_j) in
      (
        d,
        le,
        liveness-effect b d w ∙ at_d,
        ap (mem_nat d) (deps_of-some (liveness b).nodes j _ out ∙ sym (deps_of-some b.nodes j n e))
            ∙ m,
      );
}

NodeRule-get :
    (f : FetchIr) (k : NodeKind) (e : Bool)
    → NodeRule k e
    → e ≡ true
    → k ≡ Ir.fetch f
    → is_get f ≡ false
unfolding is_get
NodeRule-get f k e rule eff at_f =
    let r : e ≡ not (str_eq f.method "GET") = (subst (λ x. NodeRule x e) at_f rule).0 in
    ground arith

All-get_elem? {κ} :
    (P : Node → Type κ) (ns : List Node) (j : ℕ) (n : Node)
    → All P ns
    → get_elem? ns j ≡ some n
    → P n
All-get_elem? P [] j n h e = cc
All-get_elem? P (m ∷ ns) zero n h e = let same : m ≡ n = cc in subst P same h.0
All-get_elem? P (m ∷ ns) (suc j) n h e = All-get_elem? P ns j n h.1 e

alias_kind-effect : (k : NodeKind) (r : Rewrite) (n : Node) → (alias_kind k r n).effect ≡ n.effect
unfolding alias_kind
alias_kind-effect (Ir.fetch f) r n = refl
alias_kind-effect _ r n = refl

rewritten-effect : (o : Option Rewrite) (n : Node) → (rewritten o n).effect ≡ n.effect
unfolding alias_node
rewritten-effect none n = refl
rewritten-effect (some r) n = alias_kind-effect n.kind r n

module _ (show_float : ℕ → String) (ns : List Node) (w : IsWired ns)
    (rule : All (λ n. NodeRule n.kind n.effect) ns) where
  pub dedup-effect :
      (j : ℕ) → test_at is_effect (dedup_nodes show_float ns) j ≡ test_at is_effect ns j
  dedup-effect j = elim (Option-cases (get_elem? ns j)) [
    | inl e ↦
        test_at-none is_effect (dedup_nodes show_float ns) j
          (unfold dedup_nodes in apply-none _ ns j e)
        ∙ sym (test_at-none is_effect ns j e)
    | inr (n, e) ↦
        (let (o, out, _) = dedup_at show_float ns w.numbered j n e in
          test_at-some is_effect (dedup_nodes show_float ns) j _ out
          ∙ rewritten-effect o n
          ∙ sym (test_at-some is_effect ns j n e))
  ]

  pub dedup-IsChained : IsChained ns → IsChained (dedup_nodes show_float ns)
  dedup-IsChained c = record {
    chained = λ i j lt at_i at_j.
        let (n, e, eff) = effect_at ns j (sym (dedup-effect j) ∙ at_j) in
        let out =
          dedup_keeps show_float ns j n w.numbered e
            (λ f at_f. NodeRule-get f n.kind n.effect (All-get_elem? _ ns j n rule e) eff at_f) in
        let (d, le, at_d, m) =
          c.chained i j lt (sym (dedup-effect i) ∙ at_i) (sym (dedup-effect j) ∙ at_j) in
        (
          d,
          le,
          dedup-effect d ∙ at_d,
          ap (mem_nat d)
                (deps_of-some (dedup_nodes show_float ns) j n out ∙ sym (deps_of-some ns j n e))
              ∙ m,
        );
  }
