-- ===== src/Runtime/Pipeline/Stable.antt =====
-- That `sort_by` of crates/hale-runtime/src/eval.rs leaves items with equal keys in their order.
use Prim.Native.Nat.{Ordering}
use tired.Prelude.{
  ℕ, Bool, true, false, ◌≡◌, refl, some, List, [], ◌∷◌, arith, if◌then◌else◌, ap, sym, ◌∙◌, all,
  All, keep, get_elem?, Bool-cases, inl, inr, if_cases,
}
use tired.Compiler.Deps.Numbered.{All-map, All-get_elem?, All-of_get_elem?}
use tired.Runtime.F64.{Floats, is_equal, order_reverse}
use tired.Runtime.Value.{Value}
use tired.Runtime.Operators.{compare_values, or_equal}
use tired.Runtime.Pipeline.{
  key_order, insert_item, sort_items, is_total, is_less, sort_keyed, chains,
}
use tired.Runtime.Pipeline.Sorted.{Ascends, IsSorted-Ascends, key_order-reverse, sort_items-lem}
use tired.Runtime.Action.{pure}
use mathlib.Core.List.{Perm}

all-All : {A : Type 0} (p : A → Bool) (xs : List A) → all p xs ≡ true → All (λ x. p x ≡ true) xs
all-All p [] h = tt
all-All p (x ∷ xs) h = elim (Bool-cases (p x)) [
  | inl e ↦ (e, all-All p xs (ground (arith, h, e)))
  | inr e ↦ absurd (ground (arith, h, e))
]

keep-same :
    {A : Type 0} (p q : A → Bool) (xs : List A) → ((x : A) → p x ≡ q x) → keep p xs ≡ keep q xs
keep-same p q [] h = refl
keep-same p q (x ∷ xs) h =
    ap (λ ys. if p x then x ∷ ys else ys) (keep-same p q xs h)
    ∙ ap (λ b. if b then x ∷ keep q xs else keep q xs) (h x)

module _ (floats : Floats) where
  -- Keys that compare as equal, or not at all.
  abbrev pub ties : Value × Value → Value × Value → Bool
  ties a y = is_equal (some (or_equal (compare_values floats a.0 y.0)))

  -- Among the items whose keys tie with that of one item, the order is that of before.
  abbrev pub KeepsTies : List (Value × Value) → List (Value × Value) → Type 0
  KeepsTies xs ys = All (λ a. keep (ties a) ys ≡ keep (ties a) xs) xs

module _ (floats : Floats) (desc : Bool) where
  abbrev Keyed : Type 0
  Keyed = Value × Value

  abbrev order : Keyed → Keyed → Ordering
  order x y = key_order floats desc x y

  abbrev tied : Keyed → Keyed → Bool
  tied a y = is_equal (some (order a y))

  chains-apart :
      (ya az yz ay : Ordering)
      → chains ya az yz ≡ true
      → ya ≡ order_reverse ay
      → is_less yz ≡ true
      → is_equal (some az) ≡ true
      → is_equal (some ay) ≡ false
  chains-apart ya az yz ay c r l t = ground (arith, c, r, l, t)

  module _ (a : Keyed) where
    -- An item before one that ties with `a` does not tie with it.
    abbrev Apart : Keyed → Keyed → Type 0
    Apart y z = is_less (order y z) ≡ true → tied a z ≡ true → tied a y ≡ false

    insert_item-keep :
        (z : Keyed) (ys : List Keyed)
        → All (λ y. Apart y z) ys
        → keep (tied a) (insert_item floats desc z ys) ≡ keep (tied a) (z ∷ ys)
    unfolding insert_item
    insert_item-keep z [] h = refl
    insert_item-keep z (y ∷ ys) (h, hs) = elim (Bool-cases (is_less (order y z))) [
      | inr e ↦ rw e
      | inl l ↦ elim (Bool-cases (tied a z)) [
        | inl t ↦ (let q = h l t in rw (l, q, insert_item-keep z ys hs, t))
        | inr t ↦ rw (l, insert_item-keep z ys hs, t)
      ]
    ]

    module _ (P : Keyed → Type 0) where
      insert_item-All :
          (z : Keyed) (ys : List Keyed) → P z → All P ys → All P (insert_item floats desc z ys)
      unfolding insert_item
      insert_item-All z [] h hs = (h, tt)
      insert_item-All z (y ∷ ys) h (k, ks) =
          if_cases (All P) (is_less (order y z)) (λ _. (k, insert_item-All z ys h ks))
            (λ _. (h, (k, ks)))

      sort_items-All : (ys : List Keyed) → All P ys → All P (sort_items floats desc ys)
      unfolding sort_items
      sort_items-All [] h = tt
      sort_items-All (y ∷ ys) (h, hs) = insert_item-All y _ h (sort_items-All ys hs)

    sort_items-keep :
        (xs : List Keyed)
        → All (λ y. All (Apart y) xs) xs
        → keep (tied a) (sort_items floats desc xs) ≡ keep (tied a) xs
    unfolding sort_items
    sort_items-keep [] h = refl
    sort_items-keep (z ∷ zs) (h, hs) =
        insert_item-keep z (sort_items floats desc zs) (
          sort_items-All (λ y. Apart y z) zs
            (All-map (λ y. All (Apart y) (z ∷ zs)) (λ y. Apart y z) zs (λ y k. k.0) hs))
        ∙ ap (λ ys. if tied a z then z ∷ ys else ys)
            (sort_items-keep zs
              (All-map (λ y. All (Apart y) (z ∷ zs)) (λ y. All (Apart y) zs) zs (λ y k. k.1) hs))

  is_total-Apart :
      (xs : List Keyed) (i : ℕ) (a : Keyed)
      → is_total floats desc xs ≡ true
      → get_elem? xs i ≡ some a
      → All (λ y. All (Apart a y) xs) xs
  unfolding is_total
  is_total-Apart xs i a h e =
      All-map (λ y. row y ≡ true) (λ y. All (Apart a y) xs) xs
        (λ y k.
          All-map (λ z. chains (order y a) (order a z) (order y z) ≡ true) (Apart a y) xs
            (λ z c.
              chains-apart (order y a) (order a z) (order y z) (order a y) c
                (key_order-reverse floats desc a y))
            (all-All (λ z. chains (order y a) (order a z) (order y z)) xs
              (All-get_elem? (λ b. all (λ z. chains (order y b) (order b z) (order y z)) xs ≡ true)
                xs i a
                (all-All (λ b. all (λ z. chains (order y b) (order b z) (order y z)) xs) xs k) e)))
        (all-All row xs h)
    where
      row : Keyed → Bool
      row y = all (λ b. all (λ z. chains (order y b) (order b z) (order y z)) xs) xs

  tied-ties : (a y : Keyed) → tied a y ≡ ties floats a y
  unfolding key_order
  tied-ties a y = ground arith

  pub sort_items-KeepsTies :
      (xs : List Keyed)
      → is_total floats desc xs ≡ true
      → KeepsTies floats xs (sort_items floats desc xs)
  sort_items-KeepsTies xs h =
      All-of_get_elem?
        (λ a. keep (ties floats a) (sort_items floats desc xs) ≡ keep (ties floats a) xs) xs
        (λ i a e.
          sym (keep-same (tied a) (ties floats a) (sort_items floats desc xs) (tied-ties a))
          ∙ sort_items-keep a xs (is_total-Apart xs i a h e)
          ∙ keep-same (tied a) (ties floats a) xs (tied-ties a))

-- Where the comparison orders the keys at hand, `sort` gives a list and no error: it has every item with
-- its key as often as before, no key compares as greater than the next one, or as less with `desc`, and
-- the items that tie with any one item, by keys that are equal or cannot be compared, keep their order.
pub sort_keyed-KeepsTies :
    (floats : Floats) (desc : Bool) (xs : List (Value × Value))
    → is_total floats desc xs ≡ true
    → (ys : List (Value × Value)) × (sort_keyed floats desc xs ≡ pure ys)
      × Perm ys xs
      × Ascends floats desc ys
      × KeepsTies floats xs ys
unfolding sort_keyed
sort_keyed-KeepsTies floats desc xs h =
    let (p, s) = sort_items-lem floats desc xs in
    (_, rw h, p, IsSorted-Ascends floats desc _ s, sort_items-KeepsTies floats desc xs h)
