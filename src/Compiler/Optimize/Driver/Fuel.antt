-- ===== src/Compiler/Optimize/Driver/Fuel.antt =====
-- The fuel of `optimize_body`, and how deep the passes nest bodies.
use tired.Prelude.{
  ℕ, zero, suc, ◌+◌, ◌≤◌, ◌<◌, String, List, [], ◌∷◌, ◌++◌, Option, ◌≡◌, refl, ◌∙◌, ap, arith, All,
}
use tired.Syntax.Ast.{ℤ}
use tired.Compiler.Ir
use tired.Compiler.Ir.{Node, NodeKind, Arms, Body, Stored, stored, load_nodes, load, store}
use tired.Compiler.Ir.Deep.{DeepArms, DeepStored, Deep, Deep-load}
use tired.Compiler.Ir.Depth.{
  list_depth, stored_depth, kind_depth, arms_depth, All-of_list_depth, list_depth-load_nodes,
}
use tired.Compiler.Deps.Numbered.{All-both}
use tired.Compiler.Fusion.Loops.{next_seq}
use tired.Compiler.Fusion.Loops.Kept.{Nested}
use tired.Compiler.Optimize.Settled.{IsReady, Fits-join, Fits-part}
use tired.Compiler.Optimize.Driver.{
  Pass, on_stored, on_arms, on_kind, on_nodes, passes, pass_warnings, optimize_fuel, optimize_body,
}
use tired.Compiler.Optimize.Driver.Sound.{passes_lem}

-- Two passes agree on bodies that are less deep than this.
abbrev Agree : Pass → Pass → ℕ → Type 0
Agree f g d = (b : Body) (seq : ℕ) → list_depth b.nodes < d → Deep IsReady b → f b seq ≡ g b seq

module _ (f g : Pass) (d : ℕ) (same : Agree f g d) where
  on_stored-Agree :
      (s : Stored) (seq : ℕ)
      → stored_depth s ≤ d
      → DeepStored IsReady s
      → on_stored f s seq ≡ on_stored g s seq
  unfolding on_stored load stored_depth
  on_stored-Agree (stored ns ws) seq le h =
      ap (λ r. (store r.0, r.1, r.2))
        (same (load (stored ns ws)) seq (omega (arith, list_depth-load_nodes ns))
          (Deep-load IsReady (stored ns ws) h))

  on_arms-Agree :
      (arms : Arms) (seq : ℕ)
      → arms_depth arms ≤ d
      → DeepArms IsReady arms
      → on_arms f arms seq ≡ on_arms g arms seq
  unfolding on_arms arms_depth
  on_arms-Agree Ir.no_arms seq le h = refl
  on_arms-Agree (Ir.arm_and p (Ir.body b) arms) seq le h =
      let e = on_stored-Agree b seq (omega arith) h.0 in
      let r = on_arms-Agree arms (on_stored g b seq).2 (omega arith) h.1 in
      ap
        (λ s.
          let (arms', es, last) = on_arms f arms s.2 in
          (Ir.arm_and p (Ir.body s.0) arms', s.1 ++ es, last))
        e
      ∙ ap (λ t. let s = on_stored g b seq in (Ir.arm_and p (Ir.body s.0) t.0, s.1 ++ t.1, t.2)) r
  on_arms-Agree (Ir.arm_and p (Ir.value v) arms) seq le h =
      rw (on_arms-Agree arms seq (omega arith) h.1)
  on_arms-Agree (Ir.arm_and p (Ir.retry v) arms) seq le h =
      rw (on_arms-Agree arms seq (omega arith) h.1)

  on_kind-Agree : (k : NodeKind) (seq : ℕ) → Nested d k → on_kind f k seq ≡ on_kind g k seq
  unfolding on_kind kind_depth
  on_kind-Agree (Ir.match_node e arms sp) seq (h, le) = rw (on_arms-Agree arms seq le h)
  on_kind-Agree (Ir.for_each v e b r sp) seq (h, le) =
      ap (λ s. (Ir.for_each v e s.0 r sp, s.1, s.2)) (on_stored-Agree b seq le h)
  on_kind-Agree _ seq (h, le) = refl

  on_nodes-Agree :
      (ns : List Node) (seq : ℕ)
      → All (λ n. Nested d n.kind) ns
      → on_nodes f ns seq ≡ on_nodes g ns seq
  unfolding on_nodes
  on_nodes-Agree [] seq h = refl
  on_nodes-Agree (n ∷ ns) seq h =
      let e = on_kind-Agree n.kind seq h.0 in
      let r = on_nodes-Agree ns (on_kind g n.kind seq).2 h.1 in rw (e, r)

module _ (show_float : ℕ → String) (parse_int : String → Option ℤ) where
  optimize_fuel-Agree :
      (fuel more : ℕ)
      → fuel ≤ more
      → Agree
          (optimize_fuel show_float parse_int more)
          (optimize_fuel show_float parse_int fuel)
          fuel
  unfolding optimize_fuel
  optimize_fuel-Agree zero more le b seq lt h = absurd (omega arith)
  optimize_fuel-Agree (suc fuel) zero le b seq lt h = absurd (omega arith)
  optimize_fuel-Agree (suc fuel) (suc more) le b seq lt h =
      let fits =
        Fits-join (Nested fuel) b.nodes h.here.1
          (All-both _ _ b.nodes h.below (All-of_list_depth fuel b.nodes (omega arith))) in
      let (w, out) = passes_lem show_float parse_int fuel seq b h.here.0 fits in
      let flat = passes show_float parse_int seq b in
      let same =
        on_nodes-Agree (optimize_fuel show_float parse_int more)
          (optimize_fuel show_float parse_int fuel) fuel
          (optimize_fuel-Agree fuel more (omega arith)) flat.nodes (next_seq seq b)
          (Fits-part (Nested fuel) flat.nodes out) in
      ap (λ r. (record flat { nodes = r.0 }, pass_warnings show_float parse_int seq b ++ r.1, r.2))
        same

  -- With more fuel than the depth of the body `optimize_body` gives the same body, warnings and
  -- counter, for a body in which, at every depth, ids are positions, edges lead backwards and every effect
  -- flag fits the kind of its node.
  pub optimize_body-fuel :
      (b : Body) (seq extra : ℕ)
      → Deep IsReady b
      → optimize_fuel show_float parse_int (extra + suc (list_depth b.nodes)) b seq
        ≡ optimize_body show_float parse_int b seq
  unfolding optimize_body
  optimize_body-fuel b seq extra h =
      optimize_fuel-Agree (suc (list_depth b.nodes)) (extra + suc (list_depth b.nodes))
        (omega arith) b seq (omega arith) h
