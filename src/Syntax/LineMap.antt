-- ===== src/Syntax/LineMap.antt =====
-- `LineMap` of crates/hale-syntax/src/span.rs: from byte offsets to lines and columns. A source text is
-- its list of bytes.
pub mod Walked
use tired.Prelude.{
  ℕ, zero, suc, ◌+◌, ◌-◌, min, List, [], ◌∷◌, Option, none, some, ◌==◌, ltb, if◌then◌else◌, get_or,
  get_elem?, length,
}

pub record LineMap : Type 0 where
  pub src : List ℕ
  pub line_starts : List ℕ

-- What `line_starts` gets behind its 0; 10 is `b'\n'`.
unfoldable pub starts_from : ℕ → List ℕ → List ℕ
starts_from i [] = []
starts_from i (b ∷ bs) = let rest = starts_from (suc i) bs in if b == 10 then suc i ∷ rest else rest

-- `LineMap::new`
unfoldable pub line_map : List ℕ → LineMap
unfolding starts_from
line_map src = record { src = src; line_starts = 0 ∷ starts_from 0 src }

-- What `binary_search` returns on a sorted list: the position of the value, or where it would stand.
pub data Search : Type 0 where
  exact next : ℕ → Search

unfoldable pub search : ℕ → List ℕ → ℕ → Search
search x [] i = next i
search x (s ∷ ss) i =
    let later = search x ss (suc i) in if s == x then exact i else if ltb x s then next i else later

unfoldable pub line_of : Search → ℕ
line_of (exact i) = i
line_of (next i) = i - 1

unfoldable pub locate : LineMap → ℕ → ℕ × ℕ
unfolding search line_of
locate m offset =
    let line = line_of (search offset m.line_starts 0) in
    (line + 1, offset - get_or m.line_starts line 0 + 1)

-- `&src[start..end]`
slice : List ℕ → ℕ → ℕ → List ℕ
slice [] start end = []
slice (b ∷ bs) zero zero = []
slice (b ∷ bs) zero (suc end) = b ∷ slice bs zero end
slice (b ∷ bs) (suc start) end = slice bs start (end - 1)

text_between : List ℕ → ℕ → Option ℕ → List ℕ
unfolding slice
text_between src start none = slice src start (length src)
text_between src start (some after) = slice src start (min (after - 1) (length src))

-- `line_text`; none where the source fails, at a line that does not exist.
unfoldable pub line_text : LineMap → ℕ → Option (List ℕ)
unfolding text_between
line_text m zero = none
line_text m (suc line) = elim (get_elem? m.line_starts line) [
  | none ↦ none
  | some start ↦ some (text_between m.src start (get_elem? m.line_starts (suc line)))
]
