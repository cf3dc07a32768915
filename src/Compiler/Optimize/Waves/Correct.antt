-- ===== src/Compiler/Optimize/Waves/Correct.antt =====
-- The schedule: every live node once, behind all that it needs, and no later than that.
use tired.Prelude.{
  ℕ, suc, ◌+◌, ◌<◌, Bool, true, false, ◌&&◌, List, [], ◌++◌, ◌≡◌, ◌≢◌, refl, sym, ◌∙◌, ap, arith,
  ◌==◌, get_or, get_elem?, mem_nat, All, replicate, ◌↔◌, inl, inr, List-cases, Option-cases,
}
use tired.Compiler.Ir.{Node, Body}
use tired.Compiler.Deps.Meaning.{test_at}
use tired.Compiler.Deps.Wired.{IsWired, deps_of, has_id-at, test_at-some, test_at-none}
use tired.Compiler.Optimize.Waves.{is_live, levels, max_level, fill, waves_of, schedule_waves}
use tired.Compiler.Optimize.Waves.Levels.{level-gt, level_attained, get_or-le-max_level}
use tired.Compiler.Optimize.Waves.Buckets.{
  ids_at, get_or-fill, get_or-replicate_nil, length-replicate_nil, mem-ids_at, Gapless, get_or-keep,
  All-keep-non_empty, RisingFrom, ids_at-Rising,
}

module _ (ns : List Node) (w : IsWired ns) where
  abbrev buckets : List (List ℕ)
  buckets = fill (levels ns) ns (replicate (max_level (levels ns) + 1) [])

  get_or-buckets : (l : ℕ) → get_or buckets l [] ≡ ids_at (levels ns) ns l
  get_or-buckets l =
      get_or-fill (levels ns) ns (replicate (max_level (levels ns) + 1) []) l (λ j. omega (
        arith,
        get_or-le-max_level (levels ns) j,
        length-replicate_nil (max_level (levels ns) + 1),
      ))
      ∙ ap (λ xs. xs ++ ids_at (levels ns) ns l) (get_or-replicate_nil _ l)

  -- The test behind `ids_at`.
  at_level : ℕ → Node → Bool
  at_level l n = n.live && get_or (levels ns) n.id 0 == l

  test_at-at_level :
      (l v : ℕ)
      → (test_at (at_level l) ns v ≡ true) ↔ ((is_live ns v ≡ true) × (get_or (levels ns) v 0 ≡ l))
  unfolding at_level
  test_at-at_level l v = elim (Option-cases (get_elem? ns v)) [
    | inl e ↦ ground (arith, test_at-none (at_level l) ns v e)
    | inr (n, e) ↦ ground (arith, test_at-some (at_level l) ns v n e, w.numbered v n e)
  ]

  mem-buckets :
      (l v : ℕ)
      → (mem_nat v (get_or buckets l []) ≡ true)
        ↔ ((is_live ns v ≡ true) × (get_or (levels ns) v 0 ≡ l))
  unfolding at_level
  mem-buckets l v =
      let test = test_at-at_level l v in
      let ids = has_id-at (at_level l) ns w.numbered v in
      let same = ap (mem_nat v) (get_or-buckets l) ∙ mem-ids_at (levels ns) ns l v in
      (λ m. test.0 (ids.0 (sym same ∙ m)), λ h. same ∙ ids.1 (test.1 h))

  -- A node one level up has a dependency in the bucket below, so no bucket is skipped.
  Gapless-buckets : Gapless buckets
  Gapless-buckets l empty = elim (List-cases (get_or buckets (suc l) [])) [
    | inl e ↦ e
    | inr (v, rest, e) ↦
        (let (live, level) = (mem-buckets (suc l) v).0 (rw e (ground arith)) in
          let (d, m, live_d, q) = level_attained ns w v live (omega arith) in
          let below = (mem-buckets l d).1 (live_d, omega arith) in cc (ap (mem_nat d) empty))
  ]

  get_or-waves_of : (l : ℕ) → get_or (waves_of ns) l [] ≡ get_or buckets l []
  unfolding waves_of
  get_or-waves_of l = get_or-keep buckets Gapless-buckets l

  -- The wave of a live node is its level.
  pub mem-waves_of :
      (l v : ℕ)
      → (mem_nat v (get_or (waves_of ns) l []) ≡ true)
        ↔ ((is_live ns v ≡ true) × (get_or (levels ns) v 0 ≡ l))
  mem-waves_of l v = rw (get_or-waves_of l) (mem-buckets l v)

abbrev pub wave : Body → ℕ → List ℕ
wave b l = get_or (schedule_waves b).waves l []

-- In the schedule of a well-formed body each live node stands in exactly one wave.
pub scheduled_once :
    (b : Body) (v : ℕ)
    → IsWired b.nodes
    → is_live b.nodes v ≡ true
    → (l : ℕ) × (mem_nat v (wave b l) ≡ true) × ((k : ℕ) → mem_nat v (wave b k) ≡ true → k ≡ l)
unfolding schedule_waves
scheduled_once b v w live =
    let ns = b.nodes in
    (
      get_or (levels ns) v 0,
      (mem-waves_of ns w (get_or (levels ns) v 0) v).1 (live, refl),
      λ k m. sym ((mem-waves_of ns w k v).0 m).1,
    )

-- In the schedule of a well-formed body a node that is not live stands in no wave.
pub dead_unscheduled :
    (b : Body) (v l : ℕ)
    → IsWired b.nodes
    → is_live b.nodes v ≡ false
    → mem_nat v (wave b l) ≡ false
unfolding schedule_waves
dead_unscheduled b v l w dead = ground (arith, mem-waves_of b.nodes w l v)

-- In the schedule of a well-formed body a node runs in a later wave than each of its live
-- dependencies, so two nodes of one wave never depend on each other.
pub dependency_before :
    (b : Body) (v d l k : ℕ)
    → IsWired b.nodes
    → mem_nat v (wave b l) ≡ true
    → mem_nat d (wave b k) ≡ true
    → mem_nat d (deps_of b.nodes v) ≡ true
    → k < l
unfolding schedule_waves
dependency_before b v d l k w in_l in_k edge =
    let (live, at_l) = (mem-waves_of b.nodes w l v).0 in_l in
    let (live_d, at_k) = (mem-waves_of b.nodes w k d).0 in_k in
    omega (arith, level-gt b.nodes w v d live edge live_d)

-- In the schedule of a well-formed body a node runs as soon as it can: one in wave l + 1 has a live
-- dependency in wave l.
pub runs_early :
    (b : Body) (v l : ℕ)
    → IsWired b.nodes
    → mem_nat v (wave b (suc l)) ≡ true
    → (d : ℕ) × (mem_nat d (deps_of b.nodes v) ≡ true) × (mem_nat d (wave b l) ≡ true)
unfolding schedule_waves
runs_early b v l w in_wave =
    let (live, level) = (mem-waves_of b.nodes w (suc l) v).0 in_wave in
    let (d, m, live_d, q) = level_attained b.nodes w v live (omega arith) in
    (d, m, (mem-waves_of b.nodes w l d).1 (live_d, omega arith))

-- In the schedule of a well-formed body no wave is empty, and the ids in a wave rise strictly: they
-- keep the order of the program.
pub waves_in_order :
    (b : Body) (l : ℕ)
    → IsWired b.nodes
    → All (λ ids. ids ≢ []) (schedule_waves b).waves × RisingFrom 0 (wave b l)
unfolding schedule_waves
waves_in_order b l w =
    let ns = b.nodes in
    (
      unfold waves_of in All-keep-non_empty (buckets ns w),
      rw (get_or-waves_of ns w l, get_or-buckets ns w l)
          (ids_at-Rising (levels ns) ns l 0 (λ j n e. let q = w.numbered j n e in omega arith)),
    )
