-- ===== src/Runtime/Operators/Reversed.antt =====
-- `compare` of crates/hale-runtime/src/eval.rs with its arguments in the other order.
use Prim.Native.Nat.{Ordering, compare}
use Prim.Native.Char.{code}
use Prim.Native.String.compare.{nil-cons, cons-nil, cons-cons}
use Prim.Native.String
use Prim.Native.String.{compare as text_compare}
use tired.Prelude.{ℕ, String, Option, none, some, ◌≡◌, refl, sym, ◌∙◌, ap, arith}
use tired.Runtime.F64.{Floats, order_reverse, partial_cmp, float_order, magnitude}
use tired.Runtime.Value.{Value, as_number}
use tired.Runtime.Operators.{
  compare_values, compare_numbers, both_numbers, compare_texts, text_of, or_equal,
}

float_order-reverse : (a b : ℕ) → float_order b a ≡ order_reverse (float_order a b)
unfolding float_order magnitude
float_order-reverse a b = ground arith

partial_cmp-reverse :
    (a b : ℕ) → or_equal (partial_cmp b a) ≡ order_reverse (or_equal (partial_cmp a b))
unfolding partial_cmp
partial_cmp-reverse a b = ground (arith, float_order-reverse a b)

first-reverse :
    (m n : ℕ) (o o' : Ordering)
    → o' ≡ order_reverse o
    → String.then (compare n m) o' ≡ order_reverse (String.then (compare m n) o)
first-reverse m n o o' h = ground (arith, h)

text_order-reverse : (s t : String) → text_compare t s ≡ order_reverse (text_compare s t)
text_order-reverse String.[] String.[] = refl
text_order-reverse String.[] (String.◌∷◌ d t) = cons-nil d t ∙ sym (ap order_reverse (nil-cons d t))
text_order-reverse (String.◌∷◌ c s) String.[] = nil-cons c s ∙ sym (ap order_reverse (cons-nil c s))
text_order-reverse (String.◌∷◌ c s) (String.◌∷◌ d t) =
    cons-cons d c t s
    ∙ first-reverse (code c) (code d) _ _ (text_order-reverse s t)
    ∙ sym (ap order_reverse (cons-cons c d s t))

module _ (floats : Floats) where
  both-reverse :
      (x y : Option ℕ) (o o' : Option Ordering)
      → or_equal o' ≡ order_reverse (or_equal o)
      → or_equal (compare_numbers floats (both_numbers floats y x) o')
        ≡ order_reverse (or_equal (compare_numbers floats (both_numbers floats x y) o))
  unfolding both_numbers compare_numbers
  both-reverse (some a) (some b) o o' h = partial_cmp-reverse a b
  both-reverse (some a) none o o' h = h
  both-reverse none none o o' h = h
  both-reverse none (some b) o o' h = h

  texts-reverse :
      (x y : Option String)
      → or_equal (compare_texts floats y x) ≡ order_reverse (or_equal (compare_texts floats x y))
  unfolding compare_texts
  texts-reverse (some a) (some b) = text_order-reverse a b
  texts-reverse (some a) none = refl
  texts-reverse none none = refl
  texts-reverse none (some b) = refl

  pub compare_values-reverse :
      (a b : Value)
      → or_equal (compare_values floats b a) ≡ order_reverse (or_equal (compare_values floats a b))
  unfolding compare_values
  compare_values-reverse a b =
      both-reverse (as_number floats a) (as_number floats b) _ _
        (texts-reverse (text_of floats a) (text_of floats b))
