-- ===== src/Tests/Lines.antt =====
-- The line map of a text with two line feeds.
use tired.Prelude.{ℕ, List, [], ◌∷◌, ◌≡◌, some, refl}
use tired.Syntax.LineMap.{line_map, locate, line_text}
use tired.Syntax.LineMap.Walked.{walk, locate-walk}

-- ab⏎⏎c
abbrev src : List ℕ
src = 97 ∷ 98 ∷ 10 ∷ 10 ∷ 99 ∷ []

locate-walk_example :
    ((locate (line_map src) 4).0 ≡ (walk src 4 1 1).0)
    × ((locate (line_map src) 4).1 ≡ (walk src 4 1 1).1)
locate-walk_example = locate-walk src 4

third_test : locate (line_map src) 4 ≡ (3, 1)
unfolding locate line_map
third_test = refl

text_test : line_text (line_map src) 1 ≡ some (97 ∷ 98 ∷ [])
unfolding line_text line_map
text_test = refl
