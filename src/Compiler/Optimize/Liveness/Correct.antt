-- ===== src/Compiler/Optimize/Liveness/Correct.antt =====
-- The worklist marks exactly what the effects need, and it ends within its fuel.
use tired.Prelude.{
  ℕ, zero, suc, ◌+◌, ◌≤◌, ◌<◌, Bool, true, false, not, ◌&&◌, ◌||◌, List, [], ◌∷◌, ◌≡◌, refl, ap,
  ◌⊎◌, inl, inr, ◌↔◌, arith, ◌==◌, get_or, length, mem_nat, All, replicate, Bool-cases, List-cases,
  some, get_elem?, map,
}
use mathlib.Core.Option
use tired.Compiler.Ir.{Node, Body}
use tired.Compiler.Deps.Meaning.{test_at, is_effect}
use tired.Compiler.Deps.Wired.{deps_of, IsWired, deps_of-lt-length, has_id, has_id-at}
use tired.Compiler.Optimize.Liveness.{
  Marks, marked, mark, mark_all, seed, drain, unmarked, live_marks, liveness, set_live,
}
use tired.Compiler.Optimize.Liveness.Marking.{
  work, length-mark, work-mark, marked-mark, stack-mark, length-mark_all, work-mark_all,
  marked-mark_all, stack-mark_all, clear,
}

-- What an effect node needs, directly or through other nodes.
pub data Observed (ns : List Node) : ℕ → Type 0 where
  effect : {i : ℕ} → test_at is_effect ns i ≡ true → Observed ns i
  needed : {i d : ℕ} → Observed ns i → mem_nat d (deps_of ns i) ≡ true → Observed ns d

-- Some node of the list is an effect with this id.
abbrev effect_id : List Node → ℕ → Bool
effect_id ns v = has_id is_effect ns v

record Seeded (N : ℕ) (ns : List Node) (s t : Marks) : Type 0 where
  size : length t.flags ≡ length s.flags
  work : work t ≡ work s
  marks : (v : ℕ) → marked t v ≡ effect_id ns v || marked s v
  stack : (v : ℕ) → mem_nat v t.stack ≡ mem_nat v s.stack || (marked t v && not (marked s v))

seed_lem :
    (N : ℕ) (ns : List Node) (s : Marks)
    → length s.flags ≡ N
    → All (λ n. n.id < N) ns
    → Seeded N ns s (seed ns s)
unfolding seed
seed_lem N [] s e h = record {
  size = refl;
  work = refl;
  marks = λ v. refl;
  stack = λ v. ground arith;
}
seed_lem N (n ∷ ns) s e h = elim (Bool-cases n.effect) [
  | inl eff ↦
      (let r = seed_lem N ns (mark n.id s) (omega (arith, length-mark n.id s)) h.1 in
        rw eff (record {
          size = omega (arith, length-mark n.id s);
          work = omega (arith, work-mark n.id s (omega arith));
          marks = λ v. ground (arith, r.marks v, marked-mark n.id s (omega arith) v);
          stack = λ v. ground (
            arith,
            r.marks v,
            r.stack v,
            marked-mark n.id s (omega arith) v,
            stack-mark n.id s (omega arith) v,
          );
        }))
  | inr pure ↦
      (let r = seed_lem N ns s e h.1 in
        rw pure (record {
          size = r.size;
          work = r.work;
          marks = λ v. ground (arith, r.marks v);
          stack = λ v. r.stack v;
        }))
]

eq_sym : (a b : ℕ) → (a == b) ≡ (b == a)
eq_sym a b = ground arith

-- The invariant of the loop.
record Inv (ns : List Node) (s : Marks) : Type 0 where
  size : length s.flags ≡ length ns
  sound : (v : ℕ) → marked s v ≡ true → Observed ns v
  stacked : (v : ℕ) → mem_nat v s.stack ≡ true → marked s v ≡ true
  roots : (v : ℕ) → test_at is_effect ns v ≡ true → marked s v ≡ true
  closed :
      (u d : ℕ)
      → marked s u ≡ true
      → mem_nat d (deps_of ns u) ≡ true
      → (mem_nat u s.stack ≡ true) ⊎ (marked s d ≡ true)

length-replicate-false : (n : ℕ) → length (replicate n false) ≡ n
length-replicate-false zero = refl
length-replicate-false (suc n) = ap suc (length-replicate-false n)

clear-replicate : (n : ℕ) → clear (replicate n false) ≡ n
clear-replicate zero = refl
clear-replicate (suc n) = ap suc (clear-replicate n)

get_or-replicate : (n v : ℕ) → get_or (replicate n false) v false ≡ false
get_or-replicate zero v = refl
get_or-replicate (suc n) zero = refl
get_or-replicate (suc n) (suc v) = get_or-replicate n v

ids_in_range :
    (N i : ℕ) (ns : List Node)
    → i + length ns ≡ N
    → ((j : ℕ) (n : Node) → get_elem? ns j ≡ some n → n.id ≡ i + j)
    → All (λ n. n.id < N) ns
ids_in_range N i [] e h = tt
ids_in_range N i (n ∷ ns) e h = (
  (let q = h 0 n refl in omega arith),
  ids_in_range N (suc i) ns (omega arith) (λ j m g. let q = h (suc j) m g in omega arith),
)

module _ (ns : List Node) (w : IsWired ns) where
  start : Marks
  start = seed ns (unmarked (length ns))

  numbered_from_zero : (j : ℕ) (n : Node) → get_elem? ns j ≡ some n → n.id ≡ 0 + j
  numbered_from_zero j n e = let q = w.numbered j n e in omega arith

  seeded : Seeded (length ns) ns (unmarked (length ns)) start
  unfolding start unmarked
  seeded =
      seed_lem (length ns) ns (unmarked (length ns)) (length-replicate-false (length ns))
        (ids_in_range (length ns) 0 ns (omega arith) numbered_from_zero)

  marked-start : (v : ℕ) → (marked start v ≡ true) ↔ (test_at is_effect ns v ≡ true)
  unfolding unmarked
  marked-start v =
      ground
        (arith, seeded.marks v, get_or-replicate (length ns) v, has_id-at is_effect ns w.numbered v)

  Inv-start : Inv ns start
  unfolding unmarked
  Inv-start = record {
    size = let q = seeded.size in omega (arith, length-replicate-false (length ns));
    sound = λ v m. effect ((marked-start v).0 m);
    stacked = λ v m. ground (arith, seeded.stack v);
    roots = λ v t. (marked-start v).1 t;
    closed = λ u d m e. inl (ground (arith, seeded.stack u, get_or-replicate (length ns) u));
  }

  work-start : work start ≡ length ns
  unfolding unmarked
  work-start = let q = seeded.work in omega (arith, clear-replicate (length ns))

  round : Marks → ℕ → List ℕ → Marks
  round s u rest = mark_all (deps_of ns u) (record s { stack = rest })

  Inv-round :
      (s : Marks) (u : ℕ) (rest : List ℕ) → s.stack ≡ u ∷ rest → Inv ns s → Inv ns (round s u rest)
  unfolding round
  Inv-round s u rest e h =
      let s' = record s { stack = rest } in
      let range = deps_of-lt-length ns u w.backward in
      let flags = λ (v : ℕ). marked-mark_all (length ns) (deps_of ns u) s' v h.size range in
      let stack = λ (v : ℕ). stack-mark_all (length ns) (deps_of ns u) s' v h.size range in
      let to_u : marked s u ≡ true = h.stacked u (rw e (ground arith)) in
      record {
        size = let q = h.size in omega (arith, length-mark_all (deps_of ns u) s');
        sound = λ v m. elim (Bool-cases (mem_nat v (deps_of ns u))) [
          | inl new ↦ needed (h.sound u to_u) new
          | inr old ↦ h.sound v (ground (arith, flags v))
        ];
        stacked = λ v m.
            let old : (mem_nat v rest ≡ true) → marked s v ≡ true =
              λ q. h.stacked v (rw e (ground arith)) in
            ground (arith, flags v, stack v);
        roots = λ v t. let q = h.roots v t in ground (arith, flags v);
        closed = λ x d m edge.
            ground (arith, flags d, flags x, stack x, h.closed x d, ap (mem_nat x) e, eq_sym u x);
      }

  Inv-drain :
      (fuel : ℕ) (s : Marks)
      → Inv ns s
      → work s ≤ fuel
      → Inv ns (drain fuel ns s) × ((drain fuel ns s).stack ≡ [])
  unfolding drain round
  Inv-drain zero s h f = elim (List-cases s.stack) [
    | inl e ↦ (h, e)
    | inr (u, rest, e) ↦ absurd (omega (arith, ap length e))
  ]
  Inv-drain (suc fuel) s h f = elim (List-cases s.stack) [
    | inl e ↦ rw (e, drain) (h, e)
    | inr (u, rest, e) ↦
        (let kept =
            work-mark_all (length ns) (deps_of ns u) (record s { stack = rest }) h.size
              (deps_of-lt-length ns u w.backward) in
          let ih =
            Inv-drain fuel (round s u rest) (Inv-round s u rest e h) (omega (arith, ap length e)) in
          rw (e, drain) ih)
  ]

  marks_complete :
      (s : Marks) → Inv ns s → s.stack ≡ [] → {v : ℕ} → Observed ns v → marked s v ≡ true
  marks_complete s h e (effect t) = h.roots _ t
  marks_complete s h e (needed {i} {d} o edge) = elim (h.closed i d (marks_complete s h e o) edge) [
    | inl waiting ↦ cc (ap (mem_nat i) e)
    | inr m ↦ m
  ]

  -- The worklist stops with an empty stack, and marks exactly the observed nodes.
  pub live_marks-Observed :
      ((live_marks ns).stack ≡ []) × ((v : ℕ) → (marked (live_marks ns) v ≡ true) ↔ Observed ns v)
  unfolding live_marks start
  live_marks-Observed =
      let (inv, empty) = Inv-drain (length ns) start Inv-start (omega (arith, work-start)) in
      (empty, λ v. (inv.sound v, marks_complete (live_marks ns) inv empty))

get_elem?-map :
    (f : Node → Node) (ns : List Node) (j : ℕ) (n : Node)
    → get_elem? ns j ≡ some n
    → get_elem? (map f ns) j ≡ some (f n)
get_elem?-map f [] j n h = cc
get_elem?-map f (m ∷ ns) zero n h = ap (Option.map f) h
get_elem?-map f (m ∷ ns) (suc j) n h = get_elem?-map f ns j n h

-- On a well-formed body dead-request elimination changes the live flags alone, and keeps a node
-- exactly if it is an effect or an effect needs it, directly or through other nodes.
pub liveness-Observed :
    (b : Body) (j : ℕ) (n : Node)
    → IsWired b.nodes
    → get_elem? b.nodes j ≡ some n
    → (l : Bool) × (get_elem? (liveness b).nodes j ≡ some (record n { live = l }))
      × ((l ≡ true) ↔ Observed b.nodes j)
unfolding liveness
liveness-Observed b j n w h = (
  get_or (live_marks b.nodes).flags n.id false,
  get_elem?-map (set_live (live_marks b.nodes).flags) b.nodes j n h,
  rw (w.numbered j n h) ((live_marks-Observed b.nodes w).1 j),
)
