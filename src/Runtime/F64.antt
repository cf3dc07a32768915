-- ===== src/Runtime/F64.antt =====
-- `f64` by its 64-bit pattern: the sign bit, the order and the tests are written out; rounding
-- and decimal output are the fields of `Floats`.
use Prim.Native.Nat.{Ordering, compare}
use tired.Prelude.{
  ℕ, ◌+◌, ◌-◌, ◌%◌, ◌^◌, ◌*◌, ◌≡◌, refl, String, Option, none, some, List, Bool, true, false, ◌||◌,
  ◌==◌, ltb, if◌then◌else◌,
}
use tired.Syntax.Ast.{ℤ}

-- What the processor and the standard library compute: `+`, `-`, `*`, `as f64`, `as i64`, `{}`, and the
-- positions in which `sort_by` leaves items by a comparison of positions that is no total order, for a
-- number of items; it may also panic.
pub record Floats : Type 0 where
  pub add : ℕ → ℕ → ℕ
  pub sub : ℕ → ℕ → ℕ
  pub mul : ℕ → ℕ → ℕ
  pub of_int : ℤ → ℕ
  pub to_int : ℕ → ℤ
  pub show : ℕ → String
  pub sort_by : (ℕ → ℕ → Ordering) → ℕ → Option (List ℕ)

-- The pattern without its sign bit.
unfoldable pub magnitude : ℕ → ℕ
magnitude b = b % 2 ^ 63

-- A NaN has all bits of the exponent set and a mantissa other than 0.
unfoldable pub is_nan : ℕ → Bool
unfolding magnitude
is_nan b = ltb (2047 * 2 ^ 52) (magnitude b)

unfoldable pub float_neg : ℕ → ℕ
float_neg b = if ltb b (2 ^ 63) then b + 2 ^ 63 else b - 2 ^ 63

abbrev pub order_reverse : Ordering → Ordering
order_reverse Ordering.lt = Ordering.gt
order_reverse Ordering.eq = Ordering.eq
order_reverse Ordering.gt = Ordering.lt

-- -0.0 equals 0.0; below it the order of the patterns is reversed.
unfoldable pub float_order : ℕ → ℕ → Ordering
unfolding magnitude
float_order a b =
    if ltb a (2 ^ 63)
    then if ltb b (2 ^ 63)
      then compare a b
      else if (a + magnitude b) == 0
      then Ordering.eq
      else Ordering.gt
    else if ltb b (2 ^ 63)
    then if (magnitude a + b) == 0 then Ordering.eq else Ordering.lt
    else order_reverse (compare a b)

-- `f64::partial_cmp`
unfoldable pub partial_cmp : ℕ → ℕ → Option Ordering
unfolding float_order
partial_cmp a b = if is_nan a || is_nan b then none else some (float_order a b)

abbrev pub is_equal : Option Ordering → Bool
is_equal (some Ordering.eq) = true
is_equal _ = false

-- `f64::eq`
unfoldable pub float_eq : ℕ → ℕ → Bool
float_eq a b = is_equal (partial_cmp a b)

float_order_test : partial_cmp (2 ^ 63) 0 ≡ some Ordering.eq
unfolding partial_cmp is_nan
float_order_test = refl
