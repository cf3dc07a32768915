-- ===== src/Runtime/Eval/Calls.antt =====
-- crates/hale-runtime/src/eval.rs: the parts of `eval` that see values and outcomes, and no
-- expression inside.
use tired.Prelude.{
  ℕ, zero, suc, ◌+◌, String, Bool, true, false, not, any, all, ◌||◌, str_eq, if◌then◌else◌, List,
  [], ◌∷◌, concat, show_nat, Option, none, some,
}
use tired.Syntax.Ast.{BinOp, and_op, or_op, Expr, ident, spread}
use tired.Runtime.I64.{at_least_0, of_usize}
use tired.Runtime.F64.{Floats}
use tired.Runtime.Value.{
  Value, no_members, ErrValue, items, values, truthy, get_field, insert_member,
}
use tired.Runtime.Action.{Action, pure, raise, ◌>>=◌}
use tired.Runtime.Patterns.{Bindings}
use tired.Runtime.Operators.{binary_values}

abbrev truth : Value → Value
truth v = Value.bool (truthy v)

-- Both sides as they would run; the right one counts only if it is reached.
unfoldable pub eval_binary : Floats → BinOp → Action Value → Action Value → Action Value
eval_binary floats and_op l r =
    l >>= λ a. if truthy a then (r >>= λ b. pure (truth b)) else pure (Value.bool false)
eval_binary floats or_op l r =
    l >>= λ a. if truthy a then pure (Value.bool true) else (r >>= λ b. pure (truth b))
eval_binary floats op l r = l >>= λ a. r >>= λ b. binary_values floats op a b

-- The calls of a name in `eval_call`.
unfoldable pub call_named : String → Action Value → Action ErrValue → Action Value
call_named name first error =
    if str_eq name "Ok"
    then (first >>= λ v. pure (Value.ok v))
    else if str_eq name "Some"
    then first
    else if str_eq name "None"
    then pure Value.null
    else if str_eq name "Err"
    then (error >>= λ e. pure (Value.err e))
    else if str_eq name "length"
    then (first >>= λ v. pure (get_field "length" v))
    else if str_eq name "uuid"
    then pure (Value.str "00000000-0000-4000-8000-000000000000")
    else if str_eq name "now"
    then pure (Value.str "1970-01-01T00:00:00Z")
    else pure Value.null

abbrev pub variant_name : Expr → String
variant_name (ident n) = n.node
variant_name _ = "Error"

-- What an element of an array contributes: the items of an array that is spread.
unfoldable pub element_values : Expr → Value → List Value
element_values (spread _ _) (Value.array vs) = items vs
element_values _ v = v ∷ []

unfoldable pub as_array : Value → List Value
as_array (Value.array vs) = items vs
as_array Value.null = []
as_array v = v ∷ []

abbrev fake_count : Value → ℕ
fake_count (Value.int n) = at_least_0 n
fake_count _ = 1

-- The records from number `i` on.
fake_items : ℕ → ℕ → List Value
fake_items zero i = []
fake_items (suc n) i =
    Value.object (
      insert_member "name" (Value.str (concat ("item-" ∷ show_nat (i + 1) ∷ [])))
        (insert_member "id" (Value.int (of_usize (i + 1))) no_members))
    ∷ fake_items n (i + 1)

-- `for it in &items { out.push(f(it)?) }`
unfoldable pub each : {A : Type 0} → (Value → Action A) → List Value → Action (List A)
each f [] = pure []
each f (v ∷ vs) = f v >>= λ a. each f vs >>= λ rest. pure (a ∷ rest)

first_item : List Value → Value
first_item [] = Value.null
first_item (v ∷ _) = v

last_item : List Value → Value
last_item [] = Value.null
last_item (v ∷ []) = v
last_item (_ ∷ v ∷ vs) = last_item (v ∷ vs)

abbrev pub is_true : Bool → Bool
is_true b = b

quantified : String → List Bool → Bool
quantified method results =
    if str_eq method "all"
    then all is_true results
    else if str_eq method "any"
    then any is_true results
    else not (any is_true results)

method_value : String → (Value → Action Value) → Value → Action Value
unfolding each first_item last_item quantified
method_value method apply recv =
    if str_eq method "length"
    then pure (get_field "length" recv)
    else if str_eq method "all" || (str_eq method "any" || str_eq method "none")
    then (each (λ v. apply v >>= λ b. pure (truthy b)) (as_array recv) >>= λ results.
        pure (Value.bool (quantified method results)))
    else if str_eq method "first"
    then pure (first_item (as_array recv))
    else if str_eq method "last"
    then pure (last_item (as_array recv))
    else pure Value.null

unfoldable pub eval_method :
    String → Action Value → Action Value → (Value → Action Value) → Action Value
unfolding fake_items method_value
eval_method method first recv apply =
    if str_eq method "fake"
    then (first >>= λ n. pure (Value.array (values (fake_items (fake_count n) 0))))
    else recv >>= method_value method apply

-- One turn of the loop over the arms of a match.
abbrev pub first_match : Option Bindings → Action Value → (Bindings → Action Value) → Action Value
first_match none later arm = later
first_match (some binds) later arm = arm binds

unfoldable pub assert_that : Bool → Action Unit
assert_that b = if b then pure tt else raise "assertion failed"

unfoldable pub not_supported : Action Value
not_supported = raise (
    concat (
      "a fetch or `for` loop inside an expression-position match arm is not supported; "
      ∷ "lift it to a statement" ∷ []))
