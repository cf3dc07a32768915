-- ===== src/Compiler/Deps/Numbered.antt =====
-- Node lists whose ids count up, and what holds of every node of a list.
use tired.Prelude.{
  ℕ, zero, suc, ◌+◌, List, [], ◌∷◌, ◌++◌, none, some, ◌≡◌, refl, arith, get_elem?, length, All, inl,
  inr, subst, Option-cases,
}
use tired.Compiler.Ir.{Node}
use tired.Compiler.Deps.Wired.{IsNumbered}

-- The ids count up from this one.
abbrev pub NumberedFrom : ℕ → List Node → Type 0
NumberedFrom i [] = Unit
NumberedFrom i (n ∷ ns) = (n.id ≡ i) × NumberedFrom (suc i) ns

pub NumberedFrom-append :
    (i : ℕ) (xs ys : List Node)
    → NumberedFrom i xs
    → NumberedFrom (length xs + i) ys
    → NumberedFrom i (xs ++ ys)
NumberedFrom-append i [] ys h k =
    let q : 0 + i ≡ i = omega arith in subst (λ m. NumberedFrom m ys) q k
NumberedFrom-append i (x ∷ xs) ys h k =
    let q : suc (length xs) + i ≡ length xs + suc i = omega arith in
    (h.0, NumberedFrom-append (suc i) xs ys h.1 (subst (λ m. NumberedFrom m ys) q k))

IsNumbered_from :
    (i : ℕ) (ns : List Node)
    → NumberedFrom i ns
    → (j : ℕ) (n : Node) → get_elem? ns j ≡ some n
    → n.id ≡ i + j
IsNumbered_from i [] h j n e = cc
IsNumbered_from i (m ∷ ns) h zero n e =
    let same : m ≡ n = cc in rw (← same) (let q = h.0 in omega arith)
IsNumbered_from i (m ∷ ns) h (suc j) n e =
    let q = IsNumbered_from (suc i) ns h.1 j n e in omega arith

pub NumberedFrom-IsNumbered : (ns : List Node) → NumberedFrom 0 ns → IsNumbered ns
NumberedFrom-IsNumbered ns h j n e = let q = IsNumbered_from 0 ns h j n e in omega arith

module _ {A : Type 0} (P : A → Type 0) where
  pub All-append : (xs ys : List A) → All P xs → All P ys → All P (xs ++ ys)
  All-append [] ys h k = k
  All-append (x ∷ xs) ys h k = (h.0, All-append xs ys h.1 k)

  pub All-get_elem? : (ns : List A) (j : ℕ) (n : A) → All P ns → get_elem? ns j ≡ some n → P n
  All-get_elem? [] j n h e = cc
  All-get_elem? (m ∷ ns) zero n h e = let same : m ≡ n = cc in subst P same h.0
  All-get_elem? (m ∷ ns) (suc j) n h e = All-get_elem? ns j n h.1 e

  pub All-of_get_elem? :
      (ns : List A) → ((j : ℕ) (n : A) → get_elem? ns j ≡ some n → P n) → All P ns
  All-of_get_elem? [] h = tt
  All-of_get_elem? (m ∷ ns) h = (h 0 m refl, All-of_get_elem? ns (λ j n e. h (suc j) n e))

  -- A pass that goes position by position keeps what it keeps at each position.
  pub All-pointwise :
      (xs ys : List A)
      → ((j : ℕ) → get_elem? xs j ≡ none → get_elem? ys j ≡ none)
      → ((j : ℕ) (x : A) → get_elem? xs j ≡ some x → (y : A) × (get_elem? ys j ≡ some y) × P y)
      → All P ys
  All-pointwise xs ys outside inside = All-of_get_elem? ys (λ j y e.
      elim (Option-cases (get_elem? xs j)) [
        | inl q ↦ cc (outside j q)
        | inr (x, q) ↦ (let (z, at_j, h) = inside j x q in let same : z ≡ y = cc in subst P same h)
      ])

NumberedFrom-of_get_elem? :
    (i : ℕ) (ns : List Node)
    → ((j : ℕ) (n : Node) → get_elem? ns j ≡ some n → n.id ≡ i + j)
    → NumberedFrom i ns
NumberedFrom-of_get_elem? i [] h = tt
NumberedFrom-of_get_elem? i (n ∷ ns) h = (
  let q = h 0 n refl in omega arith,
  NumberedFrom-of_get_elem? (suc i) ns (λ j m e. let q = h (suc j) m e in omega arith),
)

pub NumberedFrom-of_IsNumbered : (ns : List Node) → IsNumbered ns → NumberedFrom 0 ns
NumberedFrom-of_IsNumbered ns h =
    NumberedFrom-of_get_elem? 0 ns (λ j n e. let q = h j n e in omega arith)

module _ {A : Type 0} (P R : A → Type 0) where
  pub All-map : (xs : List A) → ((x : A) → P x → R x) → All P xs → All R xs
  All-map [] f h = tt
  All-map (x ∷ xs) f h = (f x h.0, All-map xs f h.1)

  pub All-both : (xs : List A) → All P xs → All R xs → All (λ x. P x × R x) xs
  All-both [] h k = tt
  All-both (x ∷ xs) h k = ((h.0, k.0), All-both xs h.1 k.1)
