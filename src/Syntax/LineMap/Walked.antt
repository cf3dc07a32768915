-- ===== src/Syntax/LineMap/Walked.antt =====
-- Lines and columns by walking over the bytes.
use tired.Prelude.{
  ℕ, zero, suc, ◌+◌, ◌-◌, ◌≤◌, ◌<◌, List, [], ◌∷◌, true, false, ◌≡◌, refl, sym, ◌∙◌, ap, arith,
  ◌==◌, ltb, if◌then◌else◌, get_or, Bool-cases, inl, inr,
}
use tired.Syntax.LineMap.{starts_from, line_map, search, line_of, locate}

-- The line and the column behind this many bytes, from a line and a column.
unfoldable pub walk : List ℕ → ℕ → ℕ → ℕ → ℕ × ℕ
walk bytes zero line col = (line, col)
walk [] (suc n) line col = (line, col + suc n)
walk (b ∷ bs) (suc n) line col =
    let down = walk bs n (suc line) 1 in
    let right = walk bs n line (suc col) in if b == 10 then down else right

-- The last start that is not behind the offset, with its number.
unfoldable pub last_start : ℕ → ℕ → List ℕ → ℕ → ℕ × ℕ
last_start x st [] k = (k, st)
last_start x st (s ∷ ss) k =
    let later = last_start x s ss (suc k) in if ltb x s then (k, st) else later

-- Each start lies behind the one before.
abbrev Rising : ℕ → List ℕ → Type 0
Rising st [] = Unit
Rising st (s ∷ ss) = (st < s) × Rising s ss

Rising-starts_from : (st i : ℕ) (bs : List ℕ) → st ≤ i → Rising st (starts_from i bs)
unfolding starts_from
Rising-starts_from st i [] le = tt
Rising-starts_from st i (b ∷ bs) le = elim (Bool-cases (b == 10)) [
  | inl e ↦ rw e (omega arith, Rising-starts_from (suc i) (suc i) bs (omega arith))
  | inr e ↦ rw e (Rising-starts_from st (suc i) bs (omega arith))
]

-- The search finds the last start that is not behind the offset.
search-last_start :
    (x st : ℕ) (ss : List ℕ) (k : ℕ)
    → st ≤ x
    → Rising st ss
    → (j : ℕ) × (line_of (search x (st ∷ ss) k) ≡ k + j)
      × ((last_start x st ss k).0 ≡ k + j)
      × ((last_start x st ss k).1 ≡ get_or (st ∷ ss) j 0)
unfolding search line_of last_start
search-last_start x st [] k le h = (0, ground arith, omega arith, refl)
search-last_start x st (s ∷ ss) k le h = elim (Bool-cases (ltb x s)) [
  | inl e ↦ (0, ground arith, rw e (omega arith), rw e refl)
  | inr e ↦
      (let (j, a, b, c) = search-last_start x s ss (suc k) (ground arith) h.1 in
        (suc j, ground (arith, a), rw e (omega (arith, b)), rw e c))
]

last_start-ahead :
    (x i st k : ℕ) (bs : List ℕ) → x ≤ i → last_start x st (starts_from i bs) k ≡ (k, st)
unfolding last_start starts_from
last_start-ahead x i st k [] le = refl
last_start-ahead x i st k (b ∷ bs) le = elim (Bool-cases (b == 10)) [
  | inl e ↦ (let a : ltb x (suc i) ≡ true = ground arith in rw (e, a) refl)
  | inr e ↦ rw e (last_start-ahead x (suc i) st k bs (omega arith))
]

last_start-walk :
    (x i st k n line col : ℕ) (bs : List ℕ)
    → st ≤ i
    → i + n ≡ x
    → line ≡ k + 1
    → col ≡ i - st + 1
    → ((last_start x st (starts_from i bs) k).0 + 1 ≡ (walk bs n line col).0)
      × (x - (last_start x st (starts_from i bs) k).1 + 1 ≡ (walk bs n line col).1)
unfolding last_start starts_from walk
last_start-walk x i st k zero line col bs le e l c =
    rw (last_start-ahead x i st k bs (omega arith)) (omega arith, omega arith)
last_start-walk x i st k (suc n) line col [] le e l c = (omega arith, omega arith)
last_start-walk x i st k (suc n) line col (b ∷ bs) le e l c = elim (Bool-cases (b == 10)) [
  | inl q ↦
      (let a : ltb x (suc i) ≡ false = ground arith in
        rw (q, a)
          (last_start-walk x (suc i) (suc i) (suc k) n (suc line) 1 bs (omega arith) (omega arith)
            (omega arith) (omega arith)))
  | inr q ↦ rw q (
      last_start-walk x (suc i) st k n line (suc col) bs (omega arith) (omega arith) l
        (omega arith))
]

-- The line and the column of an offset are those that one reaches by walking over that many bytes from
-- line 1 and column 1, where a line feed starts a line; behind the end the column goes on.
pub locate-walk :
    (src : List ℕ) (offset : ℕ)
    → ((locate (line_map src) offset).0 ≡ (walk src offset 1 1).0)
      × ((locate (line_map src) offset).1 ≡ (walk src offset 1 1).1)
unfolding locate line_map
locate-walk src offset =
    let starts = starts_from 0 src in
    let (j, a, b, c) =
      search-last_start offset 0 starts 0 (omega arith)
        (Rising-starts_from 0 0 src (omega arith)) in
    let (l, m) =
      last_start-walk offset 0 0 0 offset 1 1 src (omega arith) (omega arith) refl refl in
    let at_j : line_of (search offset (0 ∷ starts) 0) ≡ j = omega (arith, a) in
    (
      omega (arith, a, b, l),
      ap (λ q. offset - get_or (0 ∷ starts) q 0 + 1) at_j ∙ ap (λ q. offset - q + 1) (sym c) ∙ m,
    )
