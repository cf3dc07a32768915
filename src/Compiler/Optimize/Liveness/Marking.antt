-- ===== src/Compiler/Optimize/Liveness/Marking.antt =====
-- The steps of the worklist: what `mark` and `mark_all` do to the flags and to the stack.
use tired.Prelude.{
  ℕ, zero, suc, ◌+◌, ◌<◌, Bool, true, false, not, ◌&&◌, ◌||◌, List, [], ◌∷◌, ◌≡◌, refl, ap, arith,
  ◌==◌, get_or, set, length, mem_nat, All,
}
use tired.Compiler.Optimize.Liveness.{Marks, marked, mark, mark_all}

pub get_or-set :
    (bs : List Bool) (i v : ℕ)
    → i < length bs
    → get_or (set bs i true) v false ≡ (v == i) || get_or bs v false
get_or-set [] i v h = absurd (omega arith)
get_or-set (b ∷ bs) zero zero h = ground arith
get_or-set (b ∷ bs) zero (suc v) h = ground arith
get_or-set (b ∷ bs) (suc i) zero h = ground arith
get_or-set (b ∷ bs) (suc i) (suc v) h = ground (arith, get_or-set bs i v)

pub length-set-true : (bs : List Bool) (i : ℕ) → length (set bs i true) ≡ length bs
length-set-true [] i = refl
length-set-true (b ∷ bs) zero = refl
length-set-true (b ∷ bs) (suc i) = ap suc (length-set-true bs i)

-- The flags that are not set.
abbrev pub clear : List Bool → ℕ
clear [] = 0
clear (true ∷ bs) = clear bs
clear (false ∷ bs) = suc (clear bs)

clear-set :
    (bs : List Bool) (i : ℕ)
    → i < length bs
    → get_or bs i false ≡ false
    → clear (set bs i true) + 1 ≡ clear bs
clear-set [] i h e = absurd (omega arith)
clear-set (true ∷ bs) zero h e = cc
clear-set (false ∷ bs) zero h e = omega arith
clear-set (true ∷ bs) (suc i) h e = clear-set bs i (omega arith) e
clear-set (false ∷ bs) (suc i) h e = omega (arith, clear-set bs i (omega arith) e)

-- Rounds that are left: a mark moves one from the clear flags to the stack.
abbrev pub work : Marks → ℕ
work s = clear s.flags + length s.stack

module _ (d : ℕ) (s : Marks) where
  pub length-mark : length (mark d s).flags ≡ length s.flags
  unfolding mark
  length-mark = ground (arith, length-set-true s.flags d)

  module _ (h : d < length s.flags) where
    pub work-mark : work (mark d s) ≡ work s
    unfolding mark
    work-mark = ground (arith, clear-set s.flags d)

    pub marked-mark : (v : ℕ) → marked (mark d s) v ≡ (v == d) || marked s v
    unfolding mark
    marked-mark v = ground (arith, get_or-set s.flags d v)

    pub stack-mark :
        (v : ℕ)
        → mem_nat v (mark d s).stack
          ≡ mem_nat v s.stack || (marked (mark d s) v && not (marked s v))
    unfolding mark
    stack-mark v = ground (arith, get_or-set s.flags d v)

pub length-mark_all : (ds : List ℕ) (s : Marks) → length (mark_all ds s).flags ≡ length s.flags
unfolding mark_all
length-mark_all [] s = refl
length-mark_all (d ∷ ds) s = omega (arith, length-mark_all ds (mark d s), length-mark d s)

module _ (n : ℕ) where
  abbrev pub InRange : List ℕ → Type 0
  InRange = All (λ d. d < n)

  pub work-mark_all :
      (ds : List ℕ) (s : Marks) → length s.flags ≡ n → InRange ds → work (mark_all ds s) ≡ work s
  unfolding mark_all
  work-mark_all [] s e h = refl
  work-mark_all (d ∷ ds) s e h = omega (
    arith,
    work-mark_all ds (mark d s) (omega (arith, length-mark d s)) h.1,
    work-mark d s (omega arith),
  )

  pub marked-mark_all :
      (ds : List ℕ) (s : Marks) (v : ℕ)
      → length s.flags ≡ n
      → InRange ds
      → marked (mark_all ds s) v ≡ mem_nat v ds || marked s v
  unfolding mark_all
  marked-mark_all [] s v e h = refl
  marked-mark_all (d ∷ ds) s v e h = ground (
    arith,
    marked-mark_all ds (mark d s) v (omega (arith, length-mark d s)) h.1,
    marked-mark d s (omega arith) v,
  )

  pub stack-mark_all :
      (ds : List ℕ) (s : Marks) (v : ℕ)
      → length s.flags ≡ n
      → InRange ds
      → mem_nat v (mark_all ds s).stack
        ≡ mem_nat v s.stack || (marked (mark_all ds s) v && not (marked s v))
  unfolding mark_all
  stack-mark_all [] s v e h = ground arith
  stack-mark_all (d ∷ ds) s v e h =
      let e' : length (mark d s).flags ≡ n = omega (arith, length-mark d s) in
      ground (
        arith,
        stack-mark_all ds (mark d s) v e' h.1,
        marked-mark_all ds (mark d s) v e' h.1,
        stack-mark d s (omega arith) v,
        marked-mark d s (omega arith) v,
      )
