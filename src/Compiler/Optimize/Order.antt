-- ===== src/Compiler/Optimize/Order.antt =====
-- Effects keep the order of the program through `dedup_requests`, `liveness` and `schedule_waves` of
-- crates/hale-compiler/src/optimize.rs.
use tired.Prelude.{
  ℕ, zero, suc, ◌<◌, true, List, some, ◌≡◌, sym, ◌∙◌, arith, get_elem?, mem_nat, dec_lt, String,
}
use tired.Syntax.Ast.{Block, block}
use tired.Compiler.Ir.{Node, Body}
use tired.Compiler.Deps.Meaning.{test_at, is_effect}
use tired.Compiler.Deps.Wired.{IsWired, deps_of, lt_of_mem}
use tired.Compiler.Lower.Nodes.{lower_block, finish}
use tired.Compiler.Lower.Sound.{lower_block-IsLowered}
use tired.Compiler.Optimize.Liveness.{liveness}
use tired.Compiler.Optimize.Liveness.Correct.{Observed, liveness-Observed}
use tired.Compiler.Optimize.Waves.{is_live}
use tired.Compiler.Optimize.Waves.Correct.{wave, scheduled_once, dependency_before}
use tired.Compiler.Optimize.Wired.{liveness-IsWired, dedup_nodes-IsWired}
use tired.Compiler.Optimize.Dedup.{dedup_requests}
use tired.Compiler.Optimize.Chained.{
  IsChained, compute_deps-IsChained, liveness-IsChained, effect_at, liveness-effect, dedup-effect,
  dedup-IsChained,
}

is_live-some : (ns : List Node) (j : ℕ) (n : Node) → get_elem? ns j ≡ some n → is_live ns j ≡ n.live
is_live-some ns j n e = ground arith

-- An effect is live after dead-request elimination.
effect-live :
    (b : Body) (j : ℕ)
    → IsWired b.nodes
    → test_at is_effect b.nodes j ≡ true
    → is_live (liveness b).nodes j ≡ true
effect-live b j w t =
    let (n, e, _) = effect_at b.nodes j t in
    let (l, out, live) = liveness-Observed b j n w e in
    let q : l ≡ true = live.1 (Observed.effect t) in is_live-some (liveness b).nodes j _ out ∙ q

module _ (b : Body) (w : IsWired b.nodes) (c : IsChained b.nodes)
    (live : (j : ℕ) → test_at is_effect b.nodes j ≡ true → is_live b.nodes j ≡ true) where
  -- The number m bounds the position j.
  in_order_below :
      (m i j l k : ℕ)
      → j < m
      → i < j
      → test_at is_effect b.nodes i ≡ true
      → test_at is_effect b.nodes j ≡ true
      → mem_nat i (wave b l) ≡ true
      → mem_nat j (wave b k) ≡ true
      → l < k
  in_order_below zero i j l k below lt at_i at_j in_l in_k = absurd (omega arith)
  in_order_below (suc m) i j l k below lt at_i at_j in_l in_k =
      let (d, le, at_d, edge) = c.chained i j lt at_i at_j in
      let before : d < j = lt_of_mem j (deps_of b.nodes j) (w.backward j) d edge in
      let (q, in_q, only) = scheduled_once b d w (live d at_d) in
      let step : q < k = dependency_before b j d k q w in_k in_q edge in
      elim (dec_lt i d) [
        | yes later ↦
            (let r = in_order_below m i d l q (omega arith) later at_i at_d in_l in_q in
              omega arith)
        | no same ↦
            (let here : i ≡ d = omega arith in
              let at_l : l ≡ q = only l (rw (← here) in_l) in omega arith)
      ]

-- A lowered block after deduplication and dead-request elimination.
abbrev pub reduced : (ℕ → String) → Block → Body
reduced show_float blk = liveness (dedup_requests show_float (lower_block blk))

-- The schedule of a lowered block, after deduplication and dead-request elimination, runs its
-- effects (mutations, logs, assertions, returns, calls, matches and loops) one per wave, in the
-- order of the program.
pub effects_in_order :
    (show_float : ℕ → String) (blk : Block) (i j l k : ℕ)
    → i < j
    → test_at is_effect (lower_block blk).nodes i ≡ true
    → test_at is_effect (lower_block blk).nodes j ≡ true
    → mem_nat i (wave (reduced show_float blk) l) ≡ true
    → mem_nat j (wave (reduced show_float blk) k) ≡ true
    → l < k
unfolding lower_block finish dedup_requests
effects_in_order show_float (block ss s) i j l k lt at_i at_j in_l in_k =
    let b = lower_block (block ss s) in
    let (w, rule) = (lower_block-IsLowered (block ss s)).here in
    let e = dedup_requests show_float b in
    let v = dedup_nodes-IsWired show_float b.nodes w in
    let same = λ (p : ℕ). liveness-effect e p v ∙ dedup-effect show_float b.nodes w rule p in
    let c =
      liveness-IsChained e v
        (dedup-IsChained show_float b.nodes w rule (compute_deps-IsChained _)) in
    in_order_below (liveness e) (liveness-IsWired e v) c
      (λ p t. effect-live e p v (sym (liveness-effect e p v) ∙ t)) (suc j) i j l k (omega arith) lt
      (same i ∙ at_i) (same j ∙ at_j) in_l in_k
