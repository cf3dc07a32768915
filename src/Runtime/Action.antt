-- ===== src/Runtime/Action.antt =====
-- `Result<_, RunError>`, an error by its message, with the lines that `println!` has written, which
-- stay written when an error ends the run.
use tired.Prelude.{String, List, [], ◌∷◌, ◌++◌}

abbrev pub RunError : Type 0
RunError = String

pub data Result (A : Type 0) : Type 0 where
  ok : A → Result A
  err : RunError → Result A

abbrev pub Action : Type 0 → Type 0
Action A = Result A × List String

abbrev pub print : String → Action Unit
print line = (ok tt, line ∷ [])

abbrev pub raise : {A : Type 0} → String → Action A
raise message = (err message, [])

abbrev pub pure : {A : Type 0} → A → Action A
pure value = (ok value, [])

infixl 5 ◌>>=◌
abbrev pub ◌>>=◌ : {A B : Type 0} → Action A → (A → Action B) → Action B
◌>>=◌ (ok a, lines) next = let (r, more) = next a in (r, lines ++ more)
◌>>=◌ (err e, lines) next = (err e, lines)
