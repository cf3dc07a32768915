-- ===== src/Compiler/Deps/Meaning.antt =====
-- What the edges of `compute_deps` mean, stated without its two running maps.
use tired.Prelude.{
  ℕ, zero, suc, ◌+◌, ◌<◌, Bool, true, false, ◌||◌, String, Option, none, some, List, [], ◌∷◌, ◌≡◌,
  refl, sym, ◌↔◌, ◌⊎◌, inl, inr, arith, ◌==◌, str_eq, eq_iff, contains, get_elem?, mem_nat,
  if◌then◌else◌, lookup, Bool-cases, dec_lt,
}
use tired.Compiler.Ir.{Node}
use tired.Compiler.Deps.{
  Seen, insert_id, insert_found, read_deps, node_deps, write, advance, deps_from, nothing_seen,
  compute_deps, recompute_deps,
}

abbrev pub binds : String → Node → Bool
binds x n = elim n.binding [ none ↦ false | some b ↦ str_eq b x ]

abbrev pub is_effect : Node → Bool
is_effect n = n.effect

-- The node at a position passes a test.
abbrev pub test_at : (Node → Bool) → List Node → ℕ → Bool
test_at p [] i = false
test_at p (n ∷ ns) zero = p n
test_at p (n ∷ ns) (suc i) = test_at p ns i

-- `j` is the last position before `i` whose node passes the test.
pub record IsLastBefore (p : Node → Bool) (ns : List Node) (i j : ℕ) : Type 0 where
  pub before : j < i
  pub passes : test_at p ns j ≡ true
  pub none_later : (k : ℕ) → j < k → k < i → test_at p ns k ≡ false

-- The edges that a node at position `i` has to have.
pub record IsEdge (ns : List Node) (i : ℕ) (n : Node) (d : ℕ) : Type 0 where
  pub reason :
      ((x : String) × (contains x n.reads ≡ true) × IsLastBefore (binds x) ns i d)
      ⊎ ((n.effect ≡ true) × IsLastBefore is_effect ns i d)

mem-insert_id : (x d : ℕ) (s : List ℕ) → mem_nat d (insert_id x s) ≡ (x == d) || mem_nat d s
unfolding insert_id
mem-insert_id x d [] = refl
mem-insert_id x d (y ∷ s) = ground (arith, mem-insert_id x d s)

mem-insert_found :
    (o : Option ℕ) (d : ℕ) (s : List ℕ)
    → (mem_nat d (insert_found o s) ≡ true) ↔ ((o ≡ some d) ⊎ (mem_nat d s ≡ true))
unfolding insert_found
mem-insert_found none d s = ground arith
mem-insert_found (some x) d s = ground (arith, mem-insert_id x d s)

-- A dependency read from the map of writers.
abbrev ReadFrom : List (String × ℕ) → List String → ℕ → Type 0
ReadFrom w rs d = (x : String) × (contains x rs ≡ true) × (lookup x w ≡ some d)

contains_head : (x : String) (rs : List String) → contains x (x ∷ rs) ≡ true
contains_head x rs = ground (arith, eq_iff x x)

ReadFrom-tail :
    (w : List (String × ℕ)) (r : String) (rs : List String) (d : ℕ)
    → ReadFrom w rs d
    → ReadFrom w (r ∷ rs) d
ReadFrom-tail w r rs d (x, c, l) = (x, ground arith, l)

mem-read_deps :
    (w : List (String × ℕ)) (rs : List String) (d : ℕ) (s : List ℕ)
    → mem_nat d (read_deps w rs s) ≡ true
    → ReadFrom w rs d ⊎ (mem_nat d s ≡ true)
unfolding read_deps
mem-read_deps w [] d s m = inr m
mem-read_deps w (r ∷ rs) d s m = elim (mem-read_deps w rs d (insert_found (lookup r w) s) m) [
  | inl later ↦ inl (ReadFrom-tail w r rs d later)
  | inr now ↦ elim ((mem-insert_found (lookup r w) d s).0 now) [
    | inl e ↦ inl (r, contains_head r rs, e)
    | inr old ↦ inr old
  ]
]

mem-read_deps_old :
    (w : List (String × ℕ)) (rs : List String) (d : ℕ) (s : List ℕ)
    → mem_nat d s ≡ true
    → mem_nat d (read_deps w rs s) ≡ true
unfolding read_deps
mem-read_deps_old w [] d s m = m
mem-read_deps_old w (r ∷ rs) d s m =
    mem-read_deps_old w rs d (insert_found (lookup r w) s)
      ((mem-insert_found (lookup r w) d s).1 (inr m))

mem-read_deps_new :
    (w : List (String × ℕ)) (rs : List String) (d : ℕ) (s : List ℕ) (x : String)
    → contains x rs ≡ true
    → lookup x w ≡ some d
    → mem_nat d (read_deps w rs s) ≡ true
unfolding read_deps
mem-read_deps_new w [] d s x c l = cc
mem-read_deps_new w (r ∷ rs) d s x c l = elim (Bool-cases (str_eq r x)) [
  | inl same ↦
      mem-read_deps_old w rs d (insert_found (lookup r w) s)
        ((mem-insert_found (lookup r w) d s).1 (inl (rw ((eq_iff r x).0 same) l)))
  | inr other ↦ mem-read_deps_new w rs d (insert_found (lookup r w) s) x (ground arith) l
]

-- The two maps say what the nodes before position `i` say.
record Snapshot (ns : List Node) (i : ℕ) (seen : Seen) : Type 0 where
  writers : (x : String) (j : ℕ) → (lookup x seen.writers ≡ some j) ↔ IsLastBefore (binds x) ns i j
  effects : (j : ℕ) → (seen.last_effect ≡ some j) ↔ IsLastBefore is_effect ns i j

module _ (p : Node → Bool) (ns : List Node) (i : ℕ) where
  IsLastBefore-hit : (j : ℕ) → test_at p ns i ≡ true → (j ≡ i) ↔ IsLastBefore p ns (suc i) j
  IsLastBefore-hit j h = (
    λ e. record {
      before = omega arith;
      passes = rw e h;
      none_later = λ k a b. absurd (omega arith);
    },
    λ l. elim (dec_lt j i) [
      | yes lt ↦ cc (l.none_later i lt (omega arith))
      | no ge ↦ (let b = l.before in omega arith)
    ],
  )

  IsLastBefore-miss :
      (j : ℕ) → test_at p ns i ≡ false → IsLastBefore p ns i j ↔ IsLastBefore p ns (suc i) j
  IsLastBefore-miss j h = (
    λ l. record {
      before = (let b = l.before in omega arith);
      passes = l.passes;
      none_later = λ k a b. elim (dec_lt k i) [
        | yes lt ↦ l.none_later k a lt
        | no ge ↦ (let e : k ≡ i = omega arith in rw e h)
      ];
    },
    λ l. record {
      before = elim (dec_lt j i) [
        | yes lt ↦ lt
        | no ge ↦
            (let b = l.before in
              let e : j ≡ i = omega arith in let q : test_at p ns i ≡ true = rw e at l.passes in cc)
      ];
      passes = l.passes;
      none_later = λ k a b. l.none_later k a (omega arith);
    },
  )

Snapshot-start : (ns : List Node) → Snapshot ns 0 nothing_seen
Snapshot-start ns = record {
  writers = λ x j. (λ e. cc, λ l. absurd (let b = l.before in omega arith));
  effects = λ j. (λ e. cc, λ l. absurd (let b = l.before in omega arith));
}

lookup-write :
    (x : String) (n : Node) (i : ℕ) (w : List (String × ℕ))
    → lookup x (write n.binding i w) ≡ (if binds x n then some i else lookup x w)
unfolding write
lookup-write x n i w = ground arith

Snapshot-advance :
    (ns : List Node) (i : ℕ) (seen : Seen) (n : Node)
    → ((p : Node → Bool) → test_at p ns i ≡ p n)
    → Snapshot ns i seen
    → Snapshot ns (suc i) (advance seen i n)
unfolding advance
Snapshot-advance ns i seen n here h = record {
  writers = λ x j. ground (
    arith,
    lookup-write x n i seen.writers,
    here (binds x),
    h.writers x j,
    IsLastBefore-hit (binds x) ns i j,
    IsLastBefore-miss (binds x) ns i j,
  );
  effects = λ j. ground (
    arith,
    here is_effect,
    h.effects j,
    IsLastBefore-hit is_effect ns i j,
    IsLastBefore-miss is_effect ns i j,
  );
}

module _ (ns : List Node) (i : ℕ) (seen : Seen) (n : Node) (h : Snapshot ns i seen) (d : ℕ) where
  IsEdge-of_read : ReadFrom seen.writers n.reads d → IsEdge ns i n d
  IsEdge-of_read (x, c, l) = record { reason = inl (x, c, (h.writers x d).0 l) }

  IsEdge-of_reads : mem_nat d (read_deps seen.writers n.reads []) ≡ true → IsEdge ns i n d
  IsEdge-of_reads m = elim (mem-read_deps seen.writers n.reads d [] m) [
    | inl r ↦ IsEdge-of_read r
    | inr old ↦ cc
  ]

  IsEdge-of_dep : mem_nat d (node_deps seen n) ≡ true → IsEdge ns i n d
  unfolding node_deps
  IsEdge-of_dep m = elim (Bool-cases n.effect) [
    | inl e ↦ elim ((mem-insert_found seen.last_effect d _).0 (rw e at m)) [
      | inl last ↦ record { reason = inr (e, (h.effects d).0 last) }
      | inr r ↦ IsEdge-of_reads r
    ]
    | inr e ↦ IsEdge-of_reads (rw e at m)
  ]

  dep_of_edge : IsEdge ns i n d → mem_nat d (node_deps seen n) ≡ true
  unfolding node_deps
  dep_of_edge edge = elim edge.reason [
    | inl (x, c, l) ↦
        (let r = mem-read_deps_new seen.writers n.reads d [] x c ((h.writers x d).1 l) in
          elim (Bool-cases n.effect) [
            | inl e ↦ rw e ((mem-insert_found seen.last_effect d _).1 (inr r))
            | inr e ↦ rw e r
          ])
    | inr (e, l) ↦ rw e ((mem-insert_found seen.last_effect d _).1 (inl ((h.effects d).1 l)))
  ]

-- What a pass over the nodes from position `i` on leaves at position `j`.
abbrev EdgesAt : List Node → List Node → ℕ → ℕ → Node → Type 0
EdgesAt ns out k j n =
    (ds : List ℕ) × (get_elem? out k ≡ some (record n { deps = ds }))
    × ((d : ℕ) → (mem_nat d ds ≡ true) ↔ IsEdge ns j n d)

deps_from-edges :
    (ns rest : List Node) (i : ℕ) (seen : Seen)
    → Snapshot ns i seen
    → ((p : Node → Bool) (k : ℕ) → test_at p rest k ≡ test_at p ns (i + k))
    → (k j : ℕ) (n : Node) → j ≡ i + k
    → get_elem? rest k ≡ some n
    → EdgesAt ns (deps_from i seen rest) k j n
unfolding deps_from
deps_from-edges ns [] i seen h same k j n e at_k = cc
deps_from-edges ns (m ∷ rest) i seen h same zero j n e at_k =
    let here : j ≡ i = omega arith in
    let it : n ≡ m = cc in
    rw (here, it)
      (node_deps seen m, refl, λ d. (IsEdge-of_dep ns i seen m h d, dep_of_edge ns i seen m h d))
deps_from-edges ns (m ∷ rest) i seen h same (suc k) j n e at_k =
    deps_from-edges ns rest (suc i) (advance seen i m)
      (Snapshot-advance ns i seen m (λ p. let a : i ≡ i + 0 = omega arith in rw a (sym (same p 0)))
        h)
      (λ p l. let a : suc i + l ≡ i + suc l = omega arith in rw a (same p (suc l))) k j n
      (omega arith) at_k

-- After `compute_deps` the node at each position is the old one with new edges, and those lead
-- exactly to the last earlier writer of a variable that the node reads and, from an effect, to the
-- last earlier effect.
pub compute_deps-edges :
    (ns : List Node) (j : ℕ) (n : Node)
    → get_elem? ns j ≡ some n
    → (ds : List ℕ) × (get_elem? (compute_deps ns) j ≡ some (record n { deps = ds }))
      × ((d : ℕ) → (mem_nat d ds ≡ true) ↔ IsEdge ns j n d)
unfolding compute_deps
compute_deps-edges ns j n at_j =
    deps_from-edges ns ns 0 nothing_seen (Snapshot-start ns)
      (λ p k. let a : k ≡ 0 + k = omega arith in rw (← a)) j j n (omega arith) at_j

pub recompute_deps-eq : (ns : List Node) → recompute_deps ns ≡ compute_deps ns
unfolding compute_deps recompute_deps
recompute_deps-eq ns = refl
