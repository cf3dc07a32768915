-- ===== src/Prelude/Text.antt =====
-- Texts: joining, decimal output, and the ordered sets and the maps of texts that the compiler
-- keeps (`BTreeSet<String>`, `HashMap<String, V>`).
use Prim.Native.Nat.{ℕ, zero, suc, ◌/◌, ◌%◌}
use Prim.Native.String
use Prim.Native.String.{String, compare}
use mathlib.Core.Path.{◌≡◌, refl}
use mathlib.Core.Bool.{Bool, false, ◌||◌, ◌&&◌, not}
use mathlib.Core.List.{List, [], ◌∷◌}
use mathlib.Core.Option.{Option, none, some}
use native.Mathlib.Omega.{arith}
use text.Mathlib.Text.{◌==◌ as str_eq, is_lt}
use text.Mathlib.TextEquality.{eq_iff}
use tired.Prelude.Tests.{ltb, ◌==◌, if◌then◌else◌}

-- The parts of a `format!` in a row.
unfoldable pub concat : List String → String
concat [] = ""
concat (s ∷ ss) = String.◌++◌ s (concat ss)

-- `[String]::join`
unfoldable pub join : String → List String → String
join sep [] = ""
join sep (s ∷ []) = s
join sep (s ∷ t ∷ ss) = String.◌++◌ s (String.◌++◌ sep (join sep (t ∷ ss)))

digit : ℕ → String
digit d =
    if d == 0
    then "0"
    else if d == 1
    then "1"
    else if d == 2
    then "2"
    else if d == 3
    then "3"
    else if d == 4
    then "4"
    else if d == 5
    then "5"
    else if d == 6
    then "6"
    else if d == 7
    then "7"
    else if d == 8
    then "8"
    else "9"

show_digits : ℕ → ℕ → String
unfolding digit
show_digits zero n = ""
show_digits (suc fuel) n =
    let rest = String.◌++◌ (show_digits fuel (n / 10)) (digit (n % 10)) in
    if ltb n 10 then digit n else rest

-- `usize::to_string`; a number has fewer digits than its successor counts.
unfoldable pub show_nat : ℕ → String
unfolding show_digits
show_nat n = show_digits (suc n) n

-- `BTreeSet::contains`
abbrev pub contains : String → List String → Bool
contains x [] = false
contains x (y ∷ s) = str_eq y x || contains x s

-- `BTreeSet::insert`
unfoldable pub insert : String → List String → List String
insert x [] = x ∷ []
insert x (y ∷ s) =
    if str_eq y x then y ∷ s else if is_lt (compare x y) then x ∷ y ∷ s else y ∷ insert x s

-- `BTreeSet::remove`
unfoldable pub remove : String → List String → List String
remove x [] = []
remove x (y ∷ s) = let rest = remove x s in if str_eq y x then rest else y ∷ rest

-- `BTreeSet::extend`, and the removal of each text of a list.
unfoldable pub insert_all : List String → List String → List String
insert_all [] s = s
insert_all (x ∷ xs) s = insert_all xs (insert x s)

unfoldable pub remove_all : List String → List String → List String
remove_all [] s = s
remove_all (x ∷ xs) s = remove_all xs (remove x s)

pub contains-insert :
    (x y : String) (s : List String) → contains y (insert x s) ≡ str_eq x y || contains y s
unfolding insert
contains-insert x y [] = refl
contains-insert x y (z ∷ s) =
    ground (arith, eq_iff z x, eq_iff z y, eq_iff x y, contains-insert x y s)

pub contains-remove :
    (x y : String) (s : List String) → contains y (remove x s) ≡ not (str_eq x y) && contains y s
unfolding remove
contains-remove x y [] = ground arith
contains-remove x y (z ∷ s) =
    ground (arith, eq_iff z x, eq_iff z y, eq_iff x y, contains-remove x y s)

pub contains-insert_all :
    (xs : List String) (y : String) (s : List String)
    → contains y (insert_all xs s) ≡ contains y xs || contains y s
unfolding insert_all
contains-insert_all [] y s = refl
contains-insert_all (x ∷ xs) y s =
    ground (arith, contains-insert_all xs y (insert x s), contains-insert x y s)

pub contains-remove_all :
    (xs : List String) (y : String) (s : List String)
    → contains y (remove_all xs s) ≡ not (contains y xs) && contains y s
unfolding remove_all
contains-remove_all [] y s = ground arith
contains-remove_all (x ∷ xs) y s =
    ground (arith, contains-remove_all xs y (remove x s), contains-remove x y s)

-- `Vec<String>::sort`, which keeps repetitions.
insert_sorted : String → List String → List String
insert_sorted x [] = x ∷ []
insert_sorted x (y ∷ s) = if is_lt (compare y x) then y ∷ insert_sorted x s else x ∷ y ∷ s

unfoldable pub sort : List String → List String
unfolding insert_sorted
sort [] = []
sort (x ∷ xs) = insert_sorted x (sort xs)

-- A map as an association list with the newest entry first.
abbrev pub lookup {ℓ} : {V : Type ℓ} → String → List (String × V) → Option V
lookup k [] = none
lookup k ((j, v) ∷ m) = if str_eq j k then some v else lookup k m

show_nat_test : show_nat 1203 ≡ "1203"
unfolding show_nat
show_nat_test = refl

set_test : insert "b" (insert "a" (insert "b" [])) ≡ "a" ∷ "b" ∷ []
unfolding insert
set_test = refl
