-- ===== src/Compiler/Optimize/Waves/Levels.antt =====
-- The levels: each live node stands one above the highest of its live dependencies.
use tired.Prelude.{
  ℕ, zero, suc, ◌+◌, ◌≤◌, ◌<◌, max, true, List, [], ◌∷◌, ◌++◌, none, some, ◌≡◌, refl, sym, ◌∙◌, ap,
  subst, ◌⊎◌, inl, inr, arith, ◌==◌, get_elem?, get_or, length, length-append, mem_nat, All,
  Bool-cases, Option-cases, if◌then◌else◌, dec_lt,
}
use tired.Compiler.Ir.{Node}
use tired.Compiler.Deps.Wired.{IsWired, deps_of, deps_of-some, lt_of_mem}
use tired.Compiler.Optimize.Waves.{is_live, dep_level, node_level, levels_from, levels, max_level}

get_or-append_left :
    (xs ys : List ℕ) (d : ℕ) → d < length xs → get_or (xs ++ ys) d 0 ≡ get_or xs d 0
get_or-append_left [] ys d h = absurd (omega arith)
get_or-append_left (x ∷ xs) ys zero h = refl
get_or-append_left (x ∷ xs) ys (suc d) h = get_or-append_left xs ys d (omega arith)

get_or-append_end : (xs : List ℕ) (y : ℕ) → get_or (xs ++ y ∷ []) (length xs) 0 ≡ y
get_or-append_end [] y = refl
get_or-append_end (x ∷ xs) y = get_or-append_end xs y

get_or_outside : (xs : List ℕ) (d : ℕ) → length xs ≤ d → get_or xs d 0 ≡ 0
get_or_outside [] d h = refl
get_or_outside (x ∷ xs) zero h = absurd (omega arith)
get_or_outside (x ∷ xs) (suc d) h = get_or_outside xs d (omega arith)

ge_of_none : (ns : List Node) (j : ℕ) → get_elem? ns j ≡ none → length ns ≤ j
ge_of_none [] j h = omega arith
ge_of_none (n ∷ ns) zero h = cc
ge_of_none (n ∷ ns) (suc j) h = omega (arith, ge_of_none ns j h)

module _ (ns : List Node) where
  levels_from-old :
      (rest : List Node) (ls : List ℕ) (d : ℕ)
      → d < length ls
      → get_or (levels_from ns rest ls) d 0 ≡ get_or ls d 0
  unfolding levels_from
  levels_from-old [] ls d h = refl
  levels_from-old (n ∷ rest) ls d h =
      let new = node_level ns ls n ∷ [] in
      levels_from-old rest (ls ++ new) d (omega (arith, length-append ls new))
      ∙ get_or-append_left ls new d h

  dep_level_cong :
      (ls ms : List ℕ) (ds : List ℕ) (lvl : ℕ)
      → ((d : ℕ) → mem_nat d ds ≡ true → get_or ls d 0 ≡ get_or ms d 0)
      → dep_level ns ls ds lvl ≡ dep_level ns ms ds lvl
  unfolding dep_level
  dep_level_cong ls ms [] lvl h = refl
  dep_level_cong ls ms (d ∷ ds) lvl h =
      rw (h d (ground arith)) (dep_level_cong ls ms ds _ (λ e m. h e (ground arith)))

  dep_level-ge : (ls : List ℕ) (ds : List ℕ) (lvl : ℕ) → lvl ≤ dep_level ns ls ds lvl
  unfolding dep_level
  dep_level-ge ls [] lvl = omega arith
  dep_level-ge ls (d ∷ ds) lvl =
      ground (arith, dep_level-ge ls ds (if is_live ns d then max lvl (get_or ls d 0 + 1) else lvl))

  -- Every live dependency stands strictly below.
  dep_level-gt :
      (ls : List ℕ) (ds : List ℕ) (lvl d : ℕ)
      → mem_nat d ds ≡ true
      → is_live ns d ≡ true
      → get_or ls d 0 < dep_level ns ls ds lvl
  unfolding dep_level
  dep_level-gt ls [] lvl d m l = cc
  dep_level-gt ls (e ∷ ds) lvl d m l = elim (Bool-cases (e == d)) [
    | inl same ↦
        (let q : e ≡ d = ground arith in
          let ge = dep_level-ge ls ds (max lvl (get_or ls d 0 + 1)) in
          rw (q, l) (omega (arith, ge)))
    | inr other ↦ dep_level-gt ls ds _ d (ground arith) l
  ]

  -- A level above the start comes from some live dependency.
  dep_level_attained :
      (ls : List ℕ) (ds : List ℕ) (lvl : ℕ)
      → (dep_level ns ls ds lvl ≡ lvl)
        ⊎ ((d : ℕ) × (mem_nat d ds ≡ true)
            × (is_live ns d ≡ true)
            × (get_or ls d 0 + 1 ≡ dep_level ns ls ds lvl))
  unfolding dep_level
  dep_level_attained ls [] lvl = inl refl
  dep_level_attained ls (e ∷ ds) lvl =
      let next = if is_live ns e then max lvl (get_or ls e 0 + 1) else lvl in
      elim (dep_level_attained ls ds next) [
        | inr (d, m, l, q) ↦ inr (d, ground arith, l, q)
        | inl stays ↦ elim (Bool-cases (is_live ns e)) [
          | inr dead ↦ inl (stays ∙ rw dead)
          | inl l ↦ elim (dec_lt lvl (get_or ls e 0 + 1)) [
            | yes above ↦ inr (
              e,
              ground arith,
              l,
              (let q : next ≡ get_or ls e 0 + 1 = rw l (omega arith) in sym (stays ∙ q)),
            )
            | no below ↦ inl (stays ∙ rw l (omega arith))
          ]
        ]
      ]

  node_level_cong :
      (ls ms : List ℕ) (n : Node)
      → ((d : ℕ) → mem_nat d n.deps ≡ true → get_or ls d 0 ≡ get_or ms d 0)
      → node_level ns ls n ≡ node_level ns ms n
  unfolding node_level
  node_level_cong ls ms n h = ap (λ l. if n.live then l else 0) (dep_level_cong ls ms n.deps 0 h)

  module _ (w : IsWired ns) where
    deps-lt :
        (j : ℕ) (n : Node) → get_elem? ns j ≡ some n → (d : ℕ) → mem_nat d n.deps ≡ true → d < j
    deps-lt j n e =
        lt_of_mem j n.deps (subst (All (λ d. d < j)) (deps_of-some ns j n e) (w.backward j))

    levels_from-first :
        (m : Node) (rest : List Node) (ls : List ℕ)
        → get_or (levels_from ns (m ∷ rest) ls) (length ls) 0 ≡ node_level ns ls m
    unfolding levels_from
    levels_from-first m rest ls =
        let l = node_level ns ls m in
        levels_from-old rest (ls ++ l ∷ []) (length ls) (omega (arith, length-append ls (l ∷ [])))
        ∙ get_or-append_end ls l

    levels_from-cons :
        (m : Node) (rest : List Node) (ls : List ℕ)
        → levels_from ns (m ∷ rest) ls ≡ levels_from ns rest (ls ++ node_level ns ls m ∷ [])
    unfolding levels_from
    levels_from-cons m rest ls = refl

    levels_from-at :
        (rest : List Node) (ls : List ℕ)
        → ((k : ℕ) → get_elem? rest k ≡ get_elem? ns (length ls + k))
        → (k j : ℕ) (n : Node) → j ≡ length ls + k
        → get_elem? rest k ≡ some n
        → get_or (levels_from ns rest ls) j 0 ≡ node_level ns (levels_from ns rest ls) n
    levels_from-at [] ls same k j n at_j e = cc
    levels_from-at (m ∷ rest) ls same zero j n at_j e =
        let here : j ≡ length ls = omega arith in
        let it : m ≡ n = cc in
        let start : get_elem? ns (length ls) ≡ some m =
          (let q : length ls ≡ length ls + 0 = omega arith in rw q (sym (same 0))) in
        let agree =
          node_level_cong ls (levels_from ns (m ∷ rest) ls) m
            (λ d mem. sym (levels_from-old (m ∷ rest) ls d (deps-lt (length ls) m start d mem))) in
        rw (here, ← it) (levels_from-first m rest ls ∙ agree)
    levels_from-at (m ∷ rest) ls same (suc k) j n at_j e =
        let longer = length-append ls (node_level ns ls m ∷ []) in
        rw (levels_from-cons m rest ls) (
          levels_from-at rest (ls ++ node_level ns ls m ∷ [])
            (λ l.
              let q : length ls + suc l ≡ length (ls ++ node_level ns ls m ∷ []) + l =
                omega (arith, longer) in
              rw (← q) (same (suc l)))
            k j n (omega (arith, longer)) e)

    level_lem :
        (j : ℕ) (n : Node)
        → get_elem? ns j ≡ some n
        → get_or (levels ns) j 0 ≡ node_level ns (levels ns) n
    unfolding levels
    level_lem j n e =
        levels_from-at ns [] (λ k. let q : k ≡ 0 + k = omega arith in rw (← q)) j j n (omega arith)
          e

    pub level-gt :
        (j d : ℕ)
        → is_live ns j ≡ true
        → mem_nat d (deps_of ns j) ≡ true
        → is_live ns d ≡ true
        → get_or (levels ns) d 0 < get_or (levels ns) j 0
    unfolding node_level
    level-gt j d live m live_d = elim (Option-cases (get_elem? ns j)) [
      | inl e ↦ ground arith
      | inr (n, e) ↦
          (let q = dep_level-gt (levels ns) n.deps 0 d in ground (arith, level_lem j n e, q))
    ]

    pub level_attained :
        (j : ℕ)
        → is_live ns j ≡ true
        → 0 < get_or (levels ns) j 0
        → (d : ℕ) × (mem_nat d (deps_of ns j) ≡ true)
          × (is_live ns d ≡ true)
          × (get_or (levels ns) d 0 + 1 ≡ get_or (levels ns) j 0)
    unfolding node_level
    level_attained j live pos = elim (Option-cases (get_elem? ns j)) [
      | inl e ↦ absurd (ground arith)
      | inr (n, e) ↦ elim (dep_level_attained (levels ns) n.deps 0) [
        | inl zero_level ↦ absurd (ground (arith, level_lem j n e))
        | inr (d, m, l, q) ↦ (
          d,
          subst (λ ds. mem_nat d ds ≡ true) (sym (deps_of-some ns j n e)) m,
          l,
          ground (arith, level_lem j n e),
        )
      ]
    ]

    length-levels_from :
        (rest : List Node) (ls : List ℕ) → length (levels_from ns rest ls) ≡ length ls + length rest
    unfolding levels_from
    length-levels_from [] ls = omega arith
    length-levels_from (n ∷ rest) ls =
        let new = node_level ns ls n ∷ [] in
        omega (arith, length-levels_from rest (ls ++ new), length-append ls new)

    level_outside : (j : ℕ) → get_elem? ns j ≡ none → get_or (levels ns) j 0 ≡ 0
    unfolding levels
    level_outside j e =
        get_or_outside (levels ns) j (omega (arith, length-levels_from ns [], ge_of_none ns j e))

    -- Only live nodes stand above the ground.
    pub live_of_level : (j : ℕ) → 0 < get_or (levels ns) j 0 → is_live ns j ≡ true
    unfolding node_level
    live_of_level j pos = elim (Option-cases (get_elem? ns j)) [
      | inl e ↦ absurd (omega (arith, level_outside j e))
      | inr (n, e) ↦ ground (arith, level_lem j n e)
    ]

pub get_or-le-max_level : (ls : List ℕ) (j : ℕ) → get_or ls j 0 ≤ max_level ls
unfolding max_level
get_or-le-max_level [] j = omega arith
get_or-le-max_level (l ∷ ls) zero = omega arith
get_or-le-max_level (l ∷ ls) (suc j) = omega (arith, get_or-le-max_level ls j)

pub max_level_attained :
    (ls : List ℕ) → (max_level ls ≡ 0) ⊎ ((j : ℕ) × (get_or ls j 0 ≡ max_level ls))
unfolding max_level
max_level_attained [] = inl refl
max_level_attained (l ∷ ls) = elim (dec_lt l (max_level ls)) [
  | no top ↦ inr (0, omega arith)
  | yes below ↦ elim (max_level_attained ls) [
    | inl z ↦ absurd (omega arith)
    | inr (j, q) ↦ inr (suc j, omega arith)
  ]
]
