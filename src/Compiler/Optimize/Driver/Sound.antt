-- ===== src/Compiler/Optimize/Driver/Sound.antt =====
-- What `optimize_body` leaves of a body and of the bodies nested in it.
use tired.Prelude.{
  ℕ, zero, suc, ◌≤◌, ◌<◌, String, List, [], ◌∷◌, Option, none, some, ◌≡◌, refl, sym, ◌∙◌, ap, arith,
  map, All, get_elem?, subst,
}
use tired.Syntax.Ast.{ℤ}
use tired.Compiler.Ir
use tired.Compiler.Ir.{Node, NodeKind, Arms, Body, Stored, stored, load_nodes, load, store}
use tired.Compiler.Ir.Deep.{DeepArms, DeepStored, Deep, Deep-load}
use tired.Compiler.Ir.Depth.{
  list_depth, stored_depth, kind_depth, arms_depth, All-of_list_depth, list_depth-load_nodes,
}
use tired.Compiler.Ir.Everywhere.{
  EverywhereKind, EverywhereArms, EverywhereStored, Everywhere, EverywhereStored-store,
}
use tired.Compiler.Deps.Numbered.{All-both}
use tired.Compiler.Deps.Wired.{IsWired, IsWired-pointwise, deps_of-some}
use tired.Compiler.Optimize.Dedup.{dedup_requests, dedup_nodes}
use tired.Compiler.Fusion.Requests.{fuse_requests, fuse_nodes}
use tired.Compiler.Fusion.Requests.Kept.{fuse_nodes-IsWired, fuse_nodes-Fits}
use tired.Compiler.Fusion.Loops.{fuse_loops, fuse_loop_nodes, next_seq}
use tired.Compiler.Fusion.Loops.Kept.{
  Nested, Nested-IsFlat, fuse_loop_nodes-IsWired, fuse_loop_nodes-Fits,
}
use tired.Compiler.Optimize.Waves.{waves_of, schedule_waves}
use tired.Compiler.Optimize.Waves.Bare.{bare, waves_of-bare}
use tired.Compiler.Optimize.Wired.{liveness-IsWired, dedup_nodes-IsWired}
use tired.Compiler.Optimize.Settled.{
  IsReady, Fits, dedup_nodes-Fits, liveness-Fits, Fits-part, Fits-join,
}
use tired.Compiler.Optimize.Driver.{
  Pass, on_stored, on_arms, on_kind, on_nodes, passes, optimize_fuel, optimize_body,
}

-- A well-formed body that carries its own schedule.
abbrev pub IsScheduled : Body → Type 0
IsScheduled b = IsWired b.nodes × (b.waves ≡ (schedule_waves b).waves)

module _ (show_float : ℕ → String) (parse_int : String → Option ℤ) where
  -- The passes keep a body well-formed, and its nested bodies too and no deeper.
  pub passes_lem :
      (d seq : ℕ) (b : Body)
      → IsWired b.nodes
      → All (Fits (Nested d)) b.nodes
      → IsWired (passes show_float parse_int seq b).nodes
        × All (Fits (Nested d)) (passes show_float parse_int seq b).nodes
  unfolding passes fuse_loops dedup_requests fuse_requests schedule_waves
  passes_lem d seq b w h =
      let looped = fuse_loop_nodes seq b.nodes in
      let w1 = fuse_loop_nodes-IsWired seq b.nodes w in
      let h1 = fuse_loop_nodes-Fits d seq b.nodes h in
      let w2 = dedup_nodes-IsWired show_float looped w1 in
      let h2 = dedup_nodes-Fits show_float (Nested d) (Nested-IsFlat d) looped w1 h1 in
      let unique = dedup_nodes show_float looped in
      let w3 = fuse_nodes-IsWired show_float parse_int unique w2 in
      let h3 = fuse_nodes-Fits show_float parse_int (Nested d) (Nested-IsFlat d) unique h2 in
      let fused : Body = record b { nodes = fuse_nodes show_float parse_int unique } in
      (liveness-IsWired fused w3, liveness-Fits (Nested d) fused w3 h3)

-- A pass that schedules all bodies that are less deep than this.
abbrev Schedules : Pass → ℕ → Type 0
Schedules f d =
    (b : Body) (seq : ℕ)
    → list_depth b.nodes < d
    → Deep IsReady b
    → Everywhere IsScheduled (f b seq).0

module _ (f : Pass) where
  on_nodes-bare : (ns : List Node) (seq : ℕ) → map bare (on_nodes f ns seq).0 ≡ map bare ns
  unfolding on_nodes
  on_nodes-bare [] seq = refl
  on_nodes-bare (n ∷ ns) seq = ap (λ ms. bare n ∷ ms) (on_nodes-bare ns (on_kind f n.kind seq).2)

  on_nodes-none :
      (ns : List Node) (seq j : ℕ)
      → get_elem? ns j ≡ none
      → get_elem? (on_nodes f ns seq).0 j ≡ none
  unfolding on_nodes
  on_nodes-none [] seq j e = refl
  on_nodes-none (n ∷ ns) seq zero e = cc
  on_nodes-none (n ∷ ns) seq (suc j) e = on_nodes-none ns (on_kind f n.kind seq).2 j e

  on_nodes-some :
      (ns : List Node) (seq j : ℕ) (n : Node)
      → get_elem? ns j ≡ some n
      → (k : NodeKind) × (get_elem? (on_nodes f ns seq).0 j ≡ some (record n { kind = k }))
  unfolding on_nodes
  on_nodes-some [] seq j n e = cc
  on_nodes-some (m ∷ ns) seq zero n e =
      let same : m ≡ n = cc in let k = (on_kind f m.kind seq).0 in (k, rw same)
  on_nodes-some (m ∷ ns) seq (suc j) n e = on_nodes-some ns (on_kind f m.kind seq).2 j n e

  on_nodes-IsWired : (ns : List Node) (seq : ℕ) → IsWired ns → IsWired (on_nodes f ns seq).0
  on_nodes-IsWired ns seq w = IsWired-pointwise ns _ (on_nodes-none ns seq) (λ j n e.
      let (k, out) = on_nodes-some ns seq j n e in
      (_, out, w.numbered j n e, subst (All (λ i. i < j)) (deps_of-some ns j n e) (w.backward j)))

  module _ (d : ℕ) (good : Schedules f d) where
    on_stored-Everywhere :
        (s : Stored) (seq : ℕ)
        → stored_depth s ≤ d
        → DeepStored IsReady s
        → EverywhereStored IsScheduled (on_stored f s seq).0
    unfolding on_stored load stored_depth
    on_stored-Everywhere (stored ns ws) seq le h = EverywhereStored-store IsScheduled _ (
        good (load (stored ns ws)) seq (omega (arith, list_depth-load_nodes ns))
          (Deep-load IsReady (stored ns ws) h))

    on_arms-Everywhere :
        (arms : Arms) (seq : ℕ)
        → arms_depth arms ≤ d
        → DeepArms IsReady arms
        → EverywhereArms IsScheduled (on_arms f arms seq).0
    unfolding on_arms arms_depth
    on_arms-Everywhere Ir.no_arms seq le h = tt
    on_arms-Everywhere (Ir.arm_and p (Ir.body b) arms) seq le h = (
      on_stored-Everywhere b seq (omega arith) h.0,
      on_arms-Everywhere arms (on_stored f b seq).2 (omega arith) h.1,
    )
    on_arms-Everywhere (Ir.arm_and p (Ir.value e) arms) seq le h =
        (tt, on_arms-Everywhere arms seq (omega arith) h.1)
    on_arms-Everywhere (Ir.arm_and p (Ir.retry e) arms) seq le h =
        (tt, on_arms-Everywhere arms seq (omega arith) h.1)

    on_kind-Everywhere :
        (k : NodeKind) (seq : ℕ) → Nested d k → EverywhereKind IsScheduled (on_kind f k seq).0
    unfolding on_kind kind_depth
    on_kind-Everywhere (Ir.match_node e arms sp) seq (h, le) = on_arms-Everywhere arms seq le h
    on_kind-Everywhere (Ir.for_each v e b r sp) seq (h, le) = on_stored-Everywhere b seq le h
    on_kind-Everywhere _ seq (h, le) = tt

    on_nodes-Everywhere :
        (ns : List Node) (seq : ℕ)
        → All (λ n. Nested d n.kind) ns
        → All (λ n. EverywhereKind IsScheduled n.kind) (on_nodes f ns seq).0
    unfolding on_nodes
    on_nodes-Everywhere [] seq h = tt
    on_nodes-Everywhere (n ∷ ns) seq h =
        (on_kind-Everywhere n.kind seq h.0, on_nodes-Everywhere ns (on_kind f n.kind seq).2 h.1)

module _ (show_float : ℕ → String) (parse_int : String → Option ℤ) where
  optimize_fuel-Schedules : (fuel : ℕ) → Schedules (optimize_fuel show_float parse_int fuel) fuel
  unfolding optimize_fuel passes schedule_waves
  optimize_fuel-Schedules zero b seq lt h = absurd (omega arith)
  optimize_fuel-Schedules (suc fuel) b seq lt h =
      let fits =
        Fits-join (Nested fuel) b.nodes h.here.1
          (All-both _ _ b.nodes h.below (All-of_list_depth fuel b.nodes (omega arith))) in
      let (w, out) = passes_lem show_float parse_int fuel seq b h.here.0 fits in
      let flat = passes show_float parse_int seq b in
      let f = optimize_fuel show_float parse_int fuel in
      let next = next_seq seq b in
      record {
        here = (
          on_nodes-IsWired f flat.nodes next w,
          sym (waves_of-bare flat.nodes)
              ∙ ap waves_of (sym (on_nodes-bare f flat.nodes next))
              ∙ waves_of-bare (on_nodes f flat.nodes next).0,
        );
        below =
            on_nodes-Everywhere f fuel (optimize_fuel-Schedules fuel) flat.nodes next
              (Fits-part (Nested fuel) flat.nodes out);
      }

  -- A body in which, at every depth, ids are positions, edges lead backwards and every effect flag fits
  -- the kind of its node, comes out of `optimize_body` with ids that are positions and edges that lead
  -- backwards, and with the waves of its own final nodes, again at every depth.
  pub optimize_body-IsScheduled :
      (b : Body) (seq : ℕ)
      → Deep IsReady b
      → Everywhere IsScheduled (optimize_body show_float parse_int b seq).0
  unfolding optimize_body
  optimize_body-IsScheduled b seq h =
      optimize_fuel-Schedules (suc (list_depth b.nodes)) b seq (omega arith) h
