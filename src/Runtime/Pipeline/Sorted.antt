-- ===== src/Runtime/Pipeline/Sorted.antt =====
-- The order and the elements of what `sort_by` of crates/hale-runtime/src/eval.rs gives.
use Prim.Native.Nat.{Ordering}
use mathlib.Core.List.{Perm}
use mathlib.Core.List.Perm
use tired.Prelude.{
  Bool, true, false, ◌≡◌, Option, some, List, [], ◌∷◌, arith, if◌then◌else◌, if_cases, sym, subst,
}
use tired.Runtime.F64.{Floats, order_reverse}
use tired.Runtime.Value.{Value}
use tired.Runtime.Operators.Reversed.{compare_values-reverse}
use tired.Runtime.Pipeline.{key_order, insert_item, sort_items, is_less}
use tired.Runtime.Operators.{compare_values, or_equal}

less_asymm : (o : Ordering) → is_less o ≡ true → is_less (order_reverse o) ≡ false
less_asymm o h = ground (arith, h)

module _ (floats : Floats) (desc : Bool) where
  abbrev Keyed : Type 0
  Keyed = Value × Value

  abbrev before : Keyed → Keyed → Bool
  before x y = is_less (key_order floats desc x y)

  -- No item is less than its neighbour on the left.
  abbrev pub IsSorted : List Keyed → Type 0
  IsSorted [] = Unit
  IsSorted (x ∷ []) = Unit
  IsSorted (x ∷ y ∷ rest) = (before y x ≡ false) × IsSorted (y ∷ rest)

  pub key_order-reverse :
      (x y : Keyed) → key_order floats desc y x ≡ order_reverse (key_order floats desc x y)
  unfolding key_order
  key_order-reverse (a, v) (b, w) = ground (arith, compare_values-reverse floats a b)

  before_asymm : (x y : Keyed) → before x y ≡ true → before y x ≡ false
  before_asymm x y h = subst (λ o. is_less o ≡ false) (sym (key_order-reverse x y)) (less_asymm _ h)

  insert_item-IsSorted :
      (x : Keyed) (ys : List Keyed) → IsSorted ys → IsSorted (insert_item floats desc x ys)
  unfolding insert_item
  insert_item-IsSorted x [] s = tt
  insert_item-IsSorted x (y ∷ []) s =
      if_cases IsSorted (before y x) (λ h. (before_asymm y x h, tt)) (λ h. (h, tt))
  insert_item-IsSorted x (y ∷ z ∷ ys) (hz, s) =
      if_cases IsSorted (before y x)
        (λ h.
          if_cases (λ l. IsSorted l → IsSorted (y ∷ l)) (before z x) (λ _ r. (hz, r))
            (λ _ r. (before_asymm y x h, r)) (insert_item-IsSorted x (z ∷ ys) s))
        (λ h. (h, (hz, s)))

  insert_item-Perm : (x : Keyed) (ys : List Keyed) → Perm (insert_item floats desc x ys) (x ∷ ys)
  unfolding insert_item
  insert_item-Perm x [] = Perm.refl _
  insert_item-Perm x (y ∷ ys) =
      if_cases (λ l. Perm l (x ∷ y ∷ ys)) (before y x)
        (λ h. Perm.trans (Perm.cons y (insert_item-Perm x ys)) (Perm.swap x y ys))
        (λ h. Perm.refl _)

  pub sort_items-lem :
      (xs : List Keyed) → Perm (sort_items floats desc xs) xs × IsSorted (sort_items floats desc xs)
  unfolding sort_items
  sort_items-lem [] = (Perm.refl _, tt)
  sort_items-lem (x ∷ xs) =
      let (p, s) = sort_items-lem xs in
      (Perm.trans (insert_item-Perm x _) (Perm.cons x p), insert_item-IsSorted x _ s)

-- A pair of neighbours that is in the wrong order.
abbrev pub misplaced : Bool → Option Ordering → Bool
misplaced false (some Ordering.gt) = true
misplaced true (some Ordering.lt) = true
misplaced desc _ = false

-- Without `desc` no key compares as greater than the next one, with `desc` none as less.
abbrev pub Ascends : Floats → Bool → List (Value × Value) → Type 0
Ascends floats desc [] = Unit
Ascends floats desc (x ∷ []) = Unit
Ascends floats desc (x ∷ y ∷ rest) =
    (misplaced desc (compare_values floats x.0 y.0) ≡ false) × Ascends floats desc (y ∷ rest)

in_place :
    (desc : Bool) (o p : Option Ordering)
    → or_equal p ≡ order_reverse (or_equal o)
    → is_less (if desc then order_reverse (or_equal p) else or_equal p) ≡ false
    → misplaced desc o ≡ false
in_place desc o p r h = ground (arith, r, h)

pub IsSorted-Ascends :
    (floats : Floats) (desc : Bool) (xs : List (Value × Value))
    → IsSorted floats desc xs
    → Ascends floats desc xs
IsSorted-Ascends floats desc [] s = tt
IsSorted-Ascends floats desc (x ∷ []) s = tt
IsSorted-Ascends floats desc (x ∷ y ∷ rest) (h, s) = (
  in_place desc (compare_values floats x.0 y.0) (compare_values floats y.0 x.0)
      (compare_values-reverse floats x.0 y.0) (unfold key_order in h),
  IsSorted-Ascends floats desc (y ∷ rest) s,
)
