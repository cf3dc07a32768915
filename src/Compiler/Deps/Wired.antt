-- ===== src/Compiler/Deps/Wired.antt =====
-- Well-formed node lists: each id is a position, and each edge leads backwards.
use tired.Prelude.{
  ℕ, zero, suc, ◌+◌, ◌<◌, Bool, true, false, ◌&&◌, ◌||◌, ◌↔◌, Bool-cases, none, some, List, [], ◌∷◌,
  ◌≡◌, refl, arith, ◌==◌, get_elem?, length, mem_nat, All, inl, inr, Option-cases, sym, subst,
}
use tired.Compiler.Ir.{Node}
use tired.Compiler.Deps.{Seen, deps_from, nothing_seen, compute_deps}
use tired.Compiler.Deps.Meaning.{IsEdge, test_at, compute_deps-edges}

-- `body.nodes[id].deps`
abbrev pub deps_of : List Node → ℕ → List ℕ
deps_of ns id = elim (get_elem? ns id) [ none ↦ [] | some n ↦ n.deps ]

abbrev pub IsNumbered : List Node → Type 0
IsNumbered ns = (j : ℕ) (n : Node) → get_elem? ns j ≡ some n → n.id ≡ j

abbrev pub IsBackward : List Node → Type 0
IsBackward ns = (j : ℕ) → All (λ d. d < j) (deps_of ns j)

pub record IsWired (ns : List Node) : Type 0 where
  pub numbered : IsNumbered ns
  pub backward : IsBackward ns

pub All-of_mem :
    (i : ℕ) (ds : List ℕ) → ((d : ℕ) → mem_nat d ds ≡ true → d < i) → All (λ d. d < i) ds
All-of_mem i [] h = tt
All-of_mem i (d ∷ ds) h = (h d (ground arith), All-of_mem i ds (λ e m. h e (ground arith)))

pub lt_of_mem : (i : ℕ) (ds : List ℕ) → All (λ d. d < i) ds → (d : ℕ) → mem_nat d ds ≡ true → d < i
lt_of_mem i [] h d m = cc
lt_of_mem i (e ∷ ds) h d m = ground (arith, lt_of_mem i ds h.1 d)

pub lt_of_get_elem? :
    {A : Type 0} (xs : List A) (j : ℕ) (x : A) → get_elem? xs j ≡ some x → j < length xs
lt_of_get_elem? [] j x h = cc
lt_of_get_elem? (y ∷ xs) zero x h = omega arith
lt_of_get_elem? (y ∷ xs) (suc j) x h = omega (arith, lt_of_get_elem? xs j x h)

All-weaken : (i j : ℕ) (ds : List ℕ) → i < j → All (λ d. d < i) ds → All (λ d. d < j) ds
All-weaken i j [] h a = tt
All-weaken i j (d ∷ ds) h a = (omega arith, All-weaken i j ds h a.1)

pub deps_of-none : (ns : List Node) (j : ℕ) → get_elem? ns j ≡ none → deps_of ns j ≡ []
deps_of-none ns j e = ground arith

pub deps_of-some :
    (ns : List Node) (j : ℕ) (n : Node) → get_elem? ns j ≡ some n → deps_of ns j ≡ n.deps
deps_of-some ns j n e = ground arith

-- Every edge of a well-formed list is in range.
pub deps_of-lt-length :
    (ns : List Node) (j : ℕ) → IsBackward ns → All (λ d. d < length ns) (deps_of ns j)
deps_of-lt-length ns j h = elim (Option-cases (get_elem? ns j)) [
  | inl e ↦ subst (All (λ d. d < length ns)) (sym (deps_of-none ns j e)) tt
  | inr (n, e) ↦ All-weaken j (length ns) (deps_of ns j) (lt_of_get_elem? ns j n e) (h j)
]

deps_from-none :
    (i : ℕ) (seen : Seen) (ns : List Node) (k : ℕ)
    → get_elem? ns k ≡ none
    → get_elem? (deps_from i seen ns) k ≡ none
unfolding deps_from
deps_from-none i seen [] k h = refl
deps_from-none i seen (n ∷ ns) zero h = cc
deps_from-none i seen (n ∷ ns) (suc k) h = deps_from-none (suc i) _ ns k h

IsEdge-lt : {ns : List Node} {i d : ℕ} {n : Node} → IsEdge ns i n d → d < i
IsEdge-lt e = elim e.reason [ inl (x, c, l) ↦ l.before | inr (c, l) ↦ l.before ]

pub compute_deps-none :
    (ns : List Node) (j : ℕ) → get_elem? ns j ≡ none → get_elem? (compute_deps ns) j ≡ none
unfolding compute_deps
compute_deps-none ns j e = deps_from-none 0 nothing_seen ns j e

-- A pass that goes position by position, keeps ids and gives backward edges leaves a list wired.
pub IsWired-pointwise :
    (ns ms : List Node)
    → ((j : ℕ) → get_elem? ns j ≡ none → get_elem? ms j ≡ none)
    → ((j : ℕ) (n : Node)
        → get_elem? ns j ≡ some n
        → (m : Node) × (get_elem? ms j ≡ some m) × (m.id ≡ j) × All (λ d. d < j) m.deps)
    → IsWired ms
IsWired-pointwise ns ms outside inside = record {
  numbered = λ j m at_j. elim (Option-cases (get_elem? ns j)) [
    | inl e ↦ cc (outside j e)
    | inr (n, e) ↦ (let (k, out, id, _) = inside j n e in let same : m ≡ k = cc in rw same id)
  ];
  backward = λ j. elim (Option-cases (get_elem? ns j)) [
    | inl e ↦ subst (All (λ d. d < j)) (sym (deps_of-none ms j (outside j e))) tt
    | inr (n, e) ↦
        (let (k, out, _, back) = inside j n e in
          subst (All (λ d. d < j)) (sym (deps_of-some ms j k out)) back)
  ];
}

-- `compute_deps` wires any list whose ids are its positions: its edges lead backwards, so a pass in
-- the order of the list meets every dependency first.
pub compute_deps-IsWired : (ns : List Node) → IsNumbered ns → IsWired (compute_deps ns)
compute_deps-IsWired ns h = IsWired-pointwise ns (compute_deps ns) (compute_deps-none ns) (λ j n e.
    let (ds, out, edges) = compute_deps-edges ns j n e in
    (_, out, h j n e, All-of_mem j ds (λ d m. IsEdge-lt ((edges d).0 m))))

-- Some node of the list has this id and passes the test.
abbrev pub has_id : (Node → Bool) → List Node → ℕ → Bool
has_id p [] v = false
has_id p (n ∷ ns) v = p n && n.id == v || has_id p ns v

abbrev PassesFrom : (Node → Bool) → List Node → ℕ → ℕ → Type 0
PassesFrom p ns i v = (k : ℕ) × (v ≡ i + k) × (test_at p ns k ≡ true)

has_id-split :
    (p : Node → Bool) (n : Node) (ns : List Node) (i v : ℕ)
    → n.id ≡ i
    → (PassesFrom p ns (suc i) v → has_id p ns v ≡ true)
    → PassesFrom p (n ∷ ns) i v
    → has_id p (n ∷ ns) v ≡ true
has_id-split p n ns i v here later (zero, e, t) = ground arith
has_id-split p n ns i v here later (suc k, e, t) = let l = later (k, omega arith, t) in ground arith

has_id_from :
    (p : Node → Bool) (ns : List Node) (i v : ℕ)
    → ((j : ℕ) (n : Node) → get_elem? ns j ≡ some n → n.id ≡ i + j)
    → (has_id p ns v ≡ true) ↔ PassesFrom p ns i v
has_id_from p [] i v h = (λ e. cc, λ (k, e, t). cc)
has_id_from p (n ∷ ns) i v h =
    let here : n.id ≡ i = let q : n.id ≡ i + 0 = h 0 n refl in omega arith in
    let later = has_id_from p ns (suc i) v (λ j m e. let q = h (suc j) m e in omega arith) in
    (
      λ e. elim (Bool-cases (p n && n.id == v)) [
        | inl now ↦ (0, ground arith, ground arith)
        | inr other ↦ (let (k, at_k, t) = later.0 (ground arith) in (suc k, omega arith, t))
      ],
      has_id-split p n ns i v here later.1,
    )

-- With ids for positions, an id is looked up by position.
pub has_id-at :
    (p : Node → Bool) (ns : List Node)
    → IsNumbered ns
    → (v : ℕ) → (has_id p ns v ≡ true) ↔ (test_at p ns v ≡ true)
has_id-at p ns h v =
    let q = has_id_from p ns 0 v (λ j n e. let r = h j n e in omega arith) in
    (
      λ e. let (k, at_k, t) = q.0 e in let same : v ≡ k = omega arith in rw same t,
      λ t. q.1 (v, omega arith, t),
    )

pub test_at-some :
    (p : Node → Bool) (ns : List Node) (j : ℕ) (n : Node)
    → get_elem? ns j ≡ some n
    → test_at p ns j ≡ p n
test_at-some p [] j n e = cc
test_at-some p (m ∷ ns) zero n e = let same : m ≡ n = cc in rw same
test_at-some p (m ∷ ns) (suc j) n e = test_at-some p ns j n e

pub test_at-none :
    (p : Node → Bool) (ns : List Node) (j : ℕ) → get_elem? ns j ≡ none → test_at p ns j ≡ false
test_at-none p [] j e = refl
test_at-none p (m ∷ ns) zero e = cc
test_at-none p (m ∷ ns) (suc j) e = test_at-none p ns j e
