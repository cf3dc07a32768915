-- ===== src/Compiler/Optimize/Waves/Buckets.antt =====
-- The waves as a partition by level: what `fill` and the removal of empty waves leave.
use tired.Prelude.{
  ℕ, zero, suc, ◌+◌, ◌<◌, ◌≤◌, Bool, true, false, ◌&&◌, List, [], ◌∷◌, ◌++◌, ◌≡◌, ◌≢◌, refl, sym,
  ◌∙◌, ap, arith, ◌==◌, get_or, length, mem_nat, All, keep, replicate, if◌then◌else◌, Bool-cases,
  inl, inr, get_elem?, some,
}
use mathlib.Core.List.{append-nil, append_assoc}
use tired.Compiler.Ir.{Node}
use tired.Compiler.Deps.Wired.{has_id}
use tired.Compiler.Optimize.Waves.{push_at, fill, non_empty}

-- The ids of the live nodes at a level, in the order of the program.
abbrev pub ids_at : List ℕ → List Node → ℕ → List ℕ
ids_at ls [] l = []
ids_at ls (n ∷ ns) l =
    if n.live && get_or ls n.id 0 == l then n.id ∷ ids_at ls ns l else ids_at ls ns l

length-push_at : (k id : ℕ) (ws : List (List ℕ)) → length (push_at k id ws) ≡ length ws
unfolding push_at
length-push_at k id [] = refl
length-push_at zero id (w ∷ ws) = refl
length-push_at (suc k) id (w ∷ ws) = ap suc (length-push_at k id ws)

get_or-push_at :
    (k id l : ℕ) (ws : List (List ℕ))
    → k < length ws
    → get_or (push_at k id ws) l [] ≡ (if k == l then get_or ws l [] ++ id ∷ [] else get_or ws l [])
unfolding push_at
get_or-push_at k id l [] h = absurd (omega arith)
get_or-push_at zero id zero (w ∷ ws) h = ground arith
get_or-push_at zero id (suc l) (w ∷ ws) h = ground arith
get_or-push_at (suc k) id zero (w ∷ ws) h = ground arith
get_or-push_at (suc k) id (suc l) (w ∷ ws) h = ground (arith, get_or-push_at k id l ws)

abbrev pub Bounded : List ℕ → List (List ℕ) → Type 0
Bounded ls ws = (j : ℕ) → get_or ls j 0 < length ws

-- One more node in its bucket.
get_or-push_live :
    (b : Bool) (xs rest : List ℕ) (id : ℕ)
    → (if b then xs ++ id ∷ [] else xs) ++ rest ≡ xs ++ (if b then id ∷ rest else rest)
get_or-push_live true xs rest id = append_assoc xs (id ∷ []) rest
get_or-push_live false xs rest id = refl

pub get_or-fill :
    (ls : List ℕ) (ns : List Node) (ws : List (List ℕ)) (l : ℕ)
    → Bounded ls ws
    → get_or (fill ls ns ws) l [] ≡ get_or ws l [] ++ ids_at ls ns l
unfolding fill
get_or-fill ls [] ws l h = sym (append-nil _)
get_or-fill ls (n ∷ ns) ws l h = elim (Bool-cases n.live) [
  | inr dead ↦ rw (dead, fill) (get_or-fill ls ns ws l h)
  | inl live ↦
      (let k = get_or ls n.id 0 in
        let ih =
          get_or-fill ls ns (push_at k n.id ws) l
            (λ j. omega (arith, h j, length-push_at k n.id ws)) in
        rw (live, fill)
          (ih
            ∙ ap (λ xs. xs ++ ids_at ls ns l) (get_or-push_at k n.id l ws (h n.id))
            ∙ get_or-push_live (k == l) (get_or ws l []) (ids_at ls ns l) n.id))
]

pub length-fill :
    (ls : List ℕ) (ns : List Node) (ws : List (List ℕ)) → length (fill ls ns ws) ≡ length ws
unfolding fill
length-fill ls [] ws = refl
length-fill ls (n ∷ ns) ws = ground (
  arith,
  length-fill ls ns ws,
  length-fill ls ns (push_at (get_or ls n.id 0) n.id ws),
  length-push_at (get_or ls n.id 0) n.id ws,
)

abbrev pub no_ids : List ℕ
no_ids = []

pub get_or-replicate_nil : (n l : ℕ) → get_or (replicate n no_ids) l [] ≡ []
get_or-replicate_nil zero l = refl
get_or-replicate_nil (suc n) zero = refl
get_or-replicate_nil (suc n) (suc l) = get_or-replicate_nil n l

pub length-replicate_nil : (n : ℕ) → length (replicate n no_ids) ≡ n
length-replicate_nil zero = refl
length-replicate_nil (suc n) = ap suc (length-replicate_nil n)

pub mem-ids_at :
    (ls : List ℕ) (ns : List Node) (l v : ℕ)
    → mem_nat v (ids_at ls ns l) ≡ has_id (λ n. n.live && get_or ls n.id 0 == l) ns v
mem-ids_at ls [] l v = refl
mem-ids_at ls (n ∷ ns) l v = ground (arith, mem-ids_at ls ns l v)

-- A bucket behind an empty one is empty.
abbrev pub Gapless : List (List ℕ) → Type 0
Gapless ws = (l : ℕ) → get_or ws l [] ≡ [] → get_or ws (suc l) [] ≡ []

keep-all_empty : (ws : List (List ℕ)) → ((l : ℕ) → get_or ws l [] ≡ []) → keep non_empty ws ≡ []
keep-all_empty [] h = refl
keep-all_empty (w ∷ ws) h = rw (h 0) (keep-all_empty ws (λ l. h (suc l)))

empty_from : (ws : List (List ℕ)) → Gapless ws → get_or ws 0 [] ≡ [] → (l : ℕ) → get_or ws l [] ≡ []
empty_from ws g z zero = z
empty_from ws g z (suc l) = g l (empty_from ws g z l)

-- Without gaps the removal of the empty waves moves none of the others.
pub get_or-keep :
    (ws : List (List ℕ)) → Gapless ws → (l : ℕ) → get_or (keep non_empty ws) l [] ≡ get_or ws l []
get_or-keep [] g l = refl
get_or-keep ([] ∷ ws) g l =
    let all = empty_from ([] ∷ ws) g refl in rw (keep-all_empty ws (λ k. all (suc k))) (sym (all l))
get_or-keep ((x ∷ w) ∷ ws) g zero = refl
get_or-keep ((x ∷ w) ∷ ws) g (suc l) = get_or-keep ws (λ k. g (suc k)) l

pub All-keep-non_empty : (ws : List (List ℕ)) → All (λ w. w ≢ []) (keep non_empty ws)
All-keep-non_empty [] = tt
All-keep-non_empty ([] ∷ ws) = All-keep-non_empty ws
All-keep-non_empty ((x ∷ w) ∷ ws) = (λ e. cc, All-keep-non_empty ws)

-- Ids in strictly rising order, all of them at least `i`.
abbrev pub RisingFrom : ℕ → List ℕ → Type 0
RisingFrom i [] = Unit
RisingFrom i (x ∷ xs) = (i ≤ x) × RisingFrom (suc x) xs

RisingFrom-weaken : (i j : ℕ) (xs : List ℕ) → i ≤ j → RisingFrom j xs → RisingFrom i xs
RisingFrom-weaken i j [] h r = tt
RisingFrom-weaken i j (x ∷ xs) h r = (omega arith, r.1)

pub ids_at-Rising :
    (ls : List ℕ) (ns : List Node) (l i : ℕ)
    → ((j : ℕ) (n : Node) → get_elem? ns j ≡ some n → n.id ≡ i + j)
    → RisingFrom i (ids_at ls ns l)
ids_at-Rising ls [] l i h = tt
ids_at-Rising ls (n ∷ ns) l i h =
    let here : n.id ≡ i = (let q : n.id ≡ i + 0 = h 0 n refl in omega arith) in
    let later = ids_at-Rising ls ns l (suc i) (λ j m e. let q = h (suc j) m e in omega arith) in
    elim (Bool-cases (n.live && get_or ls n.id 0 == l)) [
      | inl in_wave ↦ rw (in_wave, ids_at) (omega arith, rw here later)
      | inr out ↦
          rw (out, ids_at) (RisingFrom-weaken i (suc i) (ids_at ls ns l) (omega arith) later)
    ]
