-- ===== src/Runtime/Operators.antt =====
-- crates/hale-runtime/src/eval.rs: what the operators do to values.
pub mod Reversed
use Prim.Native.Nat.{Ordering}
use Prim.Native.String
use Prim.Native.String.{compare}
use tired.Prelude.{ℕ, String, Option, none, some, Bool, true, false, not}
use tired.Syntax.Ast.{
  ℤ, UnOp, not_op, neg, BinOp, add, sub, mul, eq_op, ne_op, lt_op, le_op, gt_op, ge_op, and_op,
  or_op,
}
use tired.Runtime.I64.{wrapping_add, wrapping_sub, wrapping_mul, wrapping_neg}
use tired.Runtime.F64.{Floats, float_neg, partial_cmp}
use tired.Runtime.Value.{Value, truthy, as_number, same}
use tired.Runtime.Json.{display}
use tired.Runtime.Action.{Action, pure, raise}

unfoldable pub unary_value : UnOp → Value → Action Value
unary_value not_op v = pure (Value.bool (not (truthy v)))
unary_value neg (Value.int n) = pure (Value.int (wrapping_neg n))
unary_value neg (Value.float f) = pure (Value.float (float_neg f))
unary_value neg _ = raise "cannot negate a non-number"

-- The predicates that `eval_binary` passes to `cmp_bool`.
is_less : Ordering → Bool
is_less Ordering.lt = true
is_less _ = false

is_not_greater : Ordering → Bool
is_not_greater Ordering.gt = false
is_not_greater _ = true

is_greater : Ordering → Bool
is_greater Ordering.gt = true
is_greater _ = false

is_not_less : Ordering → Bool
is_not_less Ordering.lt = false
is_not_less _ = true

-- `unwrap_or(Ordering::Equal)`
abbrev pub or_equal : Option Ordering → Ordering
or_equal none = Ordering.eq
or_equal (some o) = o

module _ (floats : Floats) where
  both_numbers : Option ℕ → Option ℕ → Option (ℕ × ℕ)
  both_numbers (some a) (some b) = some (a, b)
  both_numbers _ _ = none

  arith_floats : Option (ℕ × ℕ) → (ℕ → ℕ → ℕ) → Action Value
  arith_floats (some (a, b)) ff = pure (Value.float (ff a b))
  arith_floats none ff = raise "arithmetic requires numbers"

  unfoldable pub arith : Value → Value → (ℤ → ℤ → ℤ) → (ℕ → ℕ → ℕ) → Action Value
  unfolding both_numbers arith_floats
  arith (Value.int a) (Value.int b) fi ff = pure (Value.int (fi a b))
  arith l r fi ff = arith_floats (both_numbers (as_number floats l) (as_number floats r)) ff

  unfoldable pub add_values : Value → Value → Action Value
  add_values (Value.str a) b = pure (Value.str (String.◌++◌ a (display floats b)))
  add_values a (Value.str b) = pure (Value.str (String.◌++◌ (display floats a) b))
  add_values l r = arith l r wrapping_add (Floats.add floats)

  text_of : Value → Option String
  text_of (Value.str s) = some s
  text_of _ = none

  compare_texts : Option String → Option String → Option Ordering
  compare_texts (some a) (some b) = some (compare a b)
  compare_texts _ _ = none

  compare_numbers : Option (ℕ × ℕ) → Option Ordering → Option Ordering
  compare_numbers (some (a, b)) other = partial_cmp a b
  compare_numbers none other = other

  -- `compare`
  unfoldable pub compare_values : Value → Value → Option Ordering
  unfolding both_numbers text_of compare_texts compare_numbers
  compare_values l r =
      compare_numbers (both_numbers (as_number floats l) (as_number floats r))
        (compare_texts (text_of l) (text_of r))

  test_order : Option Ordering → (Ordering → Bool) → Action Value
  test_order (some o) pred = pure (Value.bool (pred o))
  test_order none pred = raise "values are not comparable"

  unfoldable pub cmp_bool : Value → Value → (Ordering → Bool) → Action Value
  unfolding test_order
  cmp_bool l r pred = test_order (compare_values l r) pred

  -- The operators that evaluate both sides; `and` and `or` do not come here.
  unfoldable pub binary_values : BinOp → Value → Value → Action Value
  unfolding is_less is_not_greater is_greater is_not_less
  binary_values add l r = add_values l r
  binary_values sub l r = arith l r wrapping_sub (Floats.sub floats)
  binary_values mul l r = arith l r wrapping_mul (Floats.mul floats)
  binary_values eq_op l r = pure (Value.bool (same l r))
  binary_values ne_op l r = pure (Value.bool (not (same l r)))
  binary_values lt_op l r = cmp_bool l r is_less
  binary_values le_op l r = cmp_bool l r is_not_greater
  binary_values gt_op l r = cmp_bool l r is_greater
  binary_values ge_op l r = cmp_bool l r is_not_less
  binary_values and_op l r = pure (Value.bool false)
  binary_values or_op l r = pure (Value.bool false)
