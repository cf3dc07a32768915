-- ===== src/Runtime/Pipeline.antt =====
-- crates/hale-runtime/src/eval.rs: `apply_pipeline`. `sort_by` is a stable insertion where the
-- comparison orders the keys, and the parameter `sort_by` elsewhere, as with a NaN or with mixed keys.
pub mod Local
pub mod Sorted
pub mod Stable
use Prim.Native.Nat.{Ordering}
use tired.Prelude.{
  ℕ, zero, suc, String, Option, none, some, Bool, true, false, any, all, if◌then◌else◌, List, [],
  ◌∷◌, ◌++◌, length, concat, get_elem?,
}
use tired.Syntax.Ast.{
  Expr, expr_and, no_exprs, OptExpr, absent, present, PipelineOps, no_ops, op_and, PipelineOp,
  filter, map_op, sort_op, limit, skip, reverse_op, unique, flatten_op, count_op, sum_op,
}
use tired.Runtime.I64.{at_least_0, of_usize}
use tired.Runtime.F64.{Floats, order_reverse, is_equal}
use tired.Runtime.Value.{Value, items, values, truthy, same}
use tired.Runtime.Action.{Action, pure, raise, ◌>>=◌}
use tired.Runtime.Operators.{compare_values, or_equal}
use tired.Runtime.Eval.{Env, eval, apply_first, as_array, each}

abbrev pub of_items : List Value → Value
of_items vs = Value.array (values vs)

-- `Vec::truncate`, `skip`, `reverse`
unfoldable pub truncate : ℕ → List Value → List Value
truncate zero vs = []
truncate (suc n) [] = []
truncate (suc n) (v ∷ vs) = v ∷ truncate n vs

unfoldable pub skip_items : ℕ → List Value → List Value
skip_items zero vs = vs
skip_items (suc n) [] = []
skip_items (suc n) (v ∷ vs) = skip_items n vs

unfoldable pub reverse_items : List Value → List Value
reverse_items [] = []
reverse_items (v ∷ vs) = reverse_items vs ++ v ∷ []

flatten_item : Value → List Value
flatten_item (Value.array inner) = items inner
flatten_item v = v ∷ []

unfoldable pub flatten : List Value → List Value
unfolding flatten_item
flatten [] = []
flatten (v ∷ vs) = flatten_item v ++ flatten vs

-- The items whose key is not among those seen before; the keys stand beside the items.
unfoldable pub unique_items : List Value → List (Value × Value) → List Value
unique_items seen [] = []
unique_items seen ((key, v) ∷ rest) =
    if any (λ s. same s key) seen
    then unique_items seen rest
    else v ∷ unique_items (seen ++ key ∷ []) rest

abbrev pub is_less : Ordering → Bool
is_less Ordering.lt = true
is_less _ = false

abbrev pub seconds : List (Value × Value) → List Value
seconds [] = []
seconds ((_, v) ∷ rest) = v ∷ seconds rest

-- `a < b` and `b < c` give `a < c`, and likewise for keys that are equal.
abbrev chains : Ordering → Ordering → Ordering → Bool
chains Ordering.lt Ordering.lt o = is_less o
chains Ordering.eq Ordering.eq o = is_equal (some o)
chains _ _ _ = true

module _ (floats : Floats) where
  -- The comparison that `sort_by` gets.
  unfoldable pub key_order : Bool → Value × Value → Value × Value → Ordering
  key_order desc (a, _) (b, _) =
      let ord = or_equal (compare_values floats a b) in if desc then order_reverse ord else ord

  -- An item goes before those that are not less than it.
  unfoldable pub insert_item : Bool → Value × Value → List (Value × Value) → List (Value × Value)
  insert_item desc x [] = x ∷ []
  insert_item desc x (y ∷ ys) =
      if is_less (key_order desc y x) then y ∷ insert_item desc x ys else x ∷ y ∷ ys

  unfoldable pub sort_items : Bool → List (Value × Value) → List (Value × Value)
  sort_items desc [] = []
  sort_items desc (x ∷ xs) = insert_item desc x (sort_items desc xs)

  -- What `sort_by` asks of its comparison, on the keys at hand.
  unfoldable pub is_total : Bool → List (Value × Value) → Bool
  is_total desc xs =
      all
        (λ a.
          all
            (λ b.
              all (λ c. chains (key_order desc a b) (key_order desc b c) (key_order desc a c)) xs)
            xs)
        xs

  -- The comparison by positions; no other position is ever compared.
  abbrev order_at : Bool → List (Value × Value) → ℕ → ℕ → Ordering
  order_at desc xs i j = elim (get_elem? xs i) [
    | none ↦ Ordering.eq
    | some a ↦ elim (get_elem? xs j) [ none ↦ Ordering.eq | some b ↦ key_order desc a b ]
  ]

  pick : List (Value × Value) → List ℕ → List (Value × Value)
  pick xs [] = []
  pick xs (i ∷ is) = elim (get_elem? xs i) [ none ↦ pick xs is | some x ↦ x ∷ pick xs is ]

  -- A panic of `sort_by` stands as an error with its message.
  picked : List (Value × Value) → Option (List ℕ) → Action (List (Value × Value))
  unfolding pick
  picked xs none =
      raise "user-provided comparison function does not correctly implement a total order"
  picked xs (some is) = pure (pick xs is)

  -- `sort_by`
  unfoldable pub sort_keyed : Bool → List (Value × Value) → Action (List (Value × Value))
  unfolding picked
  sort_keyed desc xs =
      if is_total desc xs
      then pure (sort_items desc xs)
      else picked xs (Floats.sort_by floats (order_at desc xs) (length xs))

  -- The running total as an `f64`, and whether every value was an integer.
  abbrev Total : Type 0
  Total = ℕ × Bool

  add_number : Value → Total → Action Total
  add_number (Value.int n) (acc, all_int) =
      pure (Floats.add floats acc (Floats.of_int floats n), all_int)
  add_number (Value.float f) (acc, all_int) = pure (Floats.add floats acc f, false)
  add_number _ total = raise "sum() expects numbers"

  unfoldable pub sum_items : (Value → Action Value) → List Value → Total → Action Value
  unfolding add_number
  sum_items key [] (acc, all_int) =
      pure (if all_int then Value.int (Floats.to_int floats acc) else Value.float acc)
  sum_items key (v ∷ vs) total = key v >>= λ n. add_number n total >>= λ next. sum_items key vs next

  module _ (process_env : String → Option String) where
    unfoldable pub apply_lambda : Expr → Env → Value → Action Value
    apply_lambda e env item = apply_first floats process_env (expr_and e no_exprs) env item

    filter_items : (Value → Action Value) → List Value → Action (List Value)
    filter_items p [] = pure []
    filter_items p (v ∷ vs) =
        p v >>= λ b. filter_items p vs >>= λ rest. pure (if truthy b then v ∷ rest else rest)

    -- `by`, or the item itself.
    abbrev key_of : OptExpr → Env → Value → Action Value
    key_of absent env v = pure v
    key_of (present e) env v = eval floats process_env e env (some v)

    abbrev keyed : (Value → Action Value) → List Value → Action (List (Value × Value))
    keyed key vs = each (λ v. key v >>= λ k. pure (k, v)) vs

    count_value : String → Value → Action ℕ
    count_value op (Value.int n) = pure (at_least_0 n)
    count_value op _ = raise (concat (op ∷ "() expects an integer" ∷ []))

    unfoldable pub count_arg : Expr → Env → String → Action ℕ
    unfolding count_value
    count_arg count env op = eval floats process_env count env none >>= count_value op

    unfoldable pub apply_op : PipelineOp → Env → Value → Action Value
    unfolding filter_items
    apply_op (filter e _) env value =
        filter_items (apply_lambda e env) (as_array value) >>= λ vs. pure (of_items vs)
    apply_op (map_op e _) env value =
        each (apply_lambda e env) (as_array value) >>= λ vs. pure (of_items vs)
    apply_op (sort_op by desc _) env value =
        keyed (λ v. eval floats process_env by env (some v)) (as_array value) >>= λ kvs.
        sort_keyed desc kvs >>= λ sorted. pure (of_items (seconds sorted))
    apply_op (limit count _) env value =
        count_arg count env "limit" >>= λ n. pure (of_items (truncate n (as_array value)))
    apply_op (skip count _) env value =
        count_arg count env "skip" >>= λ n. pure (of_items (skip_items n (as_array value)))
    apply_op (reverse_op _) env value = pure (of_items (reverse_items (as_array value)))
    apply_op (flatten_op _) env value = pure (of_items (flatten (as_array value)))
    apply_op (unique by _) env value =
        keyed (key_of by env) (as_array value) >>= λ kvs. pure (of_items (unique_items [] kvs))
    apply_op (count_op _) env value = pure (Value.int (of_usize (length (as_array value))))
    apply_op (sum_op by _) env value = sum_items (key_of by env) (as_array value) (0, true)

    unfoldable pub apply_pipeline : PipelineOps → Env → Value → Action Value
    apply_pipeline no_ops env value = pure value
    apply_pipeline (op_and op ops) env value = apply_op op env value >>= apply_pipeline ops env
