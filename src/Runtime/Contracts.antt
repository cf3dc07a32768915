-- ===== src/Runtime/Contracts.antt =====
-- crates/hale-runtime/src/contracts.rs: a response against its declared type.
use Prim.Native.Nat.{Ordering}
use tired.Prelude.{
  String, Option, none, some, Bool, true, false, not, ◌&&◌, str_eq, if◌then◌else◌, List, [], ◌∷◌,
  concat,
}
use tired.Syntax.Ast.{
  BinOp, eq_op, ne_op, lt_op, le_op, gt_op, ge_op, TypeExpr, named, optional, array_of, generic,
  no_types, type_and,
}
use tired.Syntax.Pretty.{symbol}
use tired.Syntax.Items.{ConstraintSubject, value_subject, length_subject, Constraint, cmp, in_range}
use tired.Compiler.Types.{TypeTable, RecordField}
use tired.Compiler.Types as Types
use tired.Runtime.F64.{Floats}
use tired.Runtime.Value.{
  Value, Outcome, success, failure, ErrValue, new_err, get_field, same, Values, no_values,
  value_and,
}
use tired.Runtime.Json.{display}
use tired.Runtime.Action.{Action, pure, raise, ◌>>=◌}
use tired.Runtime.Operators.{compare_values}
use tired.Runtime.Eval.{eval}

unfoldable pub subject_value : Value → ConstraintSubject → Value
subject_value v value_subject = v
subject_value v length_subject = get_field "length" v

abbrev subject_name : ConstraintSubject → String
subject_name value_subject = "value"
subject_name length_subject = "length"

order_holds : BinOp → Option Ordering → Bool
order_holds lt_op (some Ordering.lt) = true
order_holds le_op (some Ordering.lt) = true
order_holds le_op (some Ordering.eq) = true
order_holds gt_op (some Ordering.gt) = true
order_holds ge_op (some Ordering.gt) = true
order_holds ge_op (some Ordering.eq) = true
order_holds _ _ = false

is_null : Value → Bool
is_null Value.null = true
is_null _ = false

is_optional : TypeExpr → Bool
is_optional (optional _) = true
is_optional _ = false

module _ (floats : Floats) (process_env : String → Option String) where
  unfoldable pub compare_ok : Value → BinOp → Value → Bool
  unfolding order_holds
  compare_ok l eq_op r = same l r
  compare_ok l ne_op r = not (same l r)
  compare_ok l lt_op r = order_holds lt_op (compare_values floats l r)
  compare_ok l le_op r = order_holds le_op (compare_values floats l r)
  compare_ok l gt_op r = order_holds gt_op (compare_values floats l r)
  compare_ok l ge_op r = order_holds ge_op (compare_values floats l r)
  compare_ok l _ r = true

  abbrev require : Bool → String → Action Unit
  require ok message = if ok then pure tt else raise message

  unfoldable pub check_constraint : Value → Constraint → String → String → Action Unit
  check_constraint value (cmp subject op rhs) ty field =
      eval floats process_env rhs [] none >>= λ rv.
      require (compare_ok (subject_value value subject) op rv) (
        concat (
          "contract `"
          ∷ ty
          ∷ "`: field `"
          ∷ field
          ∷ "` violates `"
          ∷ subject_name subject
          ∷ " "
          ∷ symbol op
          ∷ " "
          ∷ display floats rv
          ∷ "`"
          ∷ []))
  check_constraint value (in_range subject lo hi) ty field =
      let lhs = subject_value value subject in
      eval floats process_env lo [] none >>= λ l. eval floats process_env hi [] none >>= λ h.
      require (compare_ok lhs ge_op l && compare_ok lhs le_op h) (
        concat (
          "contract `"
          ∷ ty
          ∷ "`: field `"
          ∷ field
          ∷ "` ("
          ∷ display floats lhs
          ∷ ") is outside "
          ∷ display floats l
          ∷ ".."
          ∷ display floats h
          ∷ []))

  missing : Bool → Option Constraint → String → String → Action Unit
  missing true _ ty field = pure tt
  missing false none ty field = pure tt
  missing false (some _) ty field =
      raise (concat ("contract `" ∷ ty ∷ "`: required field `" ∷ field ∷ "` is missing" ∷ []))

  constrained : Value → Option Constraint → String → String → Action Unit
  constrained value none ty field = pure tt
  constrained value (some c) ty field = check_constraint value c ty field

  unfoldable pub validate_field : Value → String → RecordField → Action Unit
  unfolding missing constrained is_null is_optional
  validate_field value ty field =
      let fv = get_field field.name value in
      if is_null fv
      then missing (is_optional field.decl.ty) field.decl.constraint ty field.name
      else constrained fv field.decl.constraint ty field.name

  validate_fields : Value → String → List RecordField → Action Unit
  validate_fields value ty [] = pure tt
  validate_fields value ty (f ∷ fs) = validate_field value ty f >>= λ _. validate_fields value ty fs

  unfoldable pub validate_named : Value → String → TypeTable → Action Unit
  unfolding validate_fields
  validate_named value name table = elim (Types.fields name table) [
    | none ↦ pure tt
    | some fs ↦ validate_fields value name fs
  ]

  -- `for it in items { validate(it, …)?; }`
  for_each_item : (Value → Action Unit) → Values → Action Unit
  for_each_item check no_values = pure tt
  for_each_item check (value_and v vs) = check v >>= λ _. for_each_item check vs

  in_array : (Value → Action Unit) → Value → Action Unit
  in_array check (Value.array vs) = for_each_item check vs
  in_array check _ = pure tt

  in_ok : (Value → Action Unit) → Value → Action Unit
  in_ok check (Value.ok v) = check v
  in_ok check _ = pure tt

  unfoldable pub validate : TypeExpr → TypeTable → Value → Action Unit
  unfolding for_each_item in_array in_ok is_null
  validate (named name) table value = validate_named value name table
  validate (optional inner) table value =
      if is_null value then pure tt else validate inner table value
  validate (array_of inner) table value = in_array (validate inner table) value
  validate (generic name (type_and t (type_and _ no_types))) table value =
      if str_eq name "Result" then in_ok (validate t table) value else pure tt
  validate _ table value = pure tt

  unfoldable pub validate_outcome : Outcome → TypeExpr → TypeTable → Action Unit
  validate_outcome (success v) ty table = validate ty table v
  validate_outcome (failure _) ty table = pure tt

unfoldable pub contract_failure : String → ErrValue
contract_failure message = new_err "ContractViolation" none message
