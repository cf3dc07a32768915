-- ===== src/Tests/Runtime.antt =====
-- Evaluation at small expressions, and its properties there.
use mathlib.Core.List.{Perm}
use tired.Prelude.{
  ℕ, ◌+◌, ◌^◌, String, Option, none, some, true, ◌≡◌, refl, List, [], ◌∷◌, arith, insert, remove,
  insert_all, remove_all,
}
use tired.Syntax.Ast.{
  pos, negsuc, Expr, int, sub, match_on, match_expr, arm_and, no_arms, value_arm, ctor, binding,
  wildcard, pattern_and, no_patterns, Pattern, limit, sort_op, op_and, no_ops, PipelineOps,
  implicit_field,
}
use tired.Compiler.Lower.FreeVars.{
  free_vars_of, free_vars, ops_vars, pattern_binds, collect_pattern_binds,
}
use tired.Runtime.I64.{of_bits, to_bits, wrapping_add}
use tired.Runtime.Operators
use tired.Runtime.Operators.{binary_values, add_values}
use tired.Runtime.F64.{Floats, partial_cmp, is_nan, float_order, magnitude}
use tired.Runtime.Value.{Value, err_value, no_payload, as_number}
use tired.Runtime.Action.{pure}
use tired.Runtime.Patterns.{match_pattern}
use tired.Runtime.Patterns.Bound.{BindsAll, match_pattern-BindsAll, IsPlain}
use tired.Runtime.Eval.{Env, eval, eval_binary}
use tired.Runtime.Eval.Tidy.{Tidy, TidyOp, TidyOps}
use tired.Runtime.Pipeline.{apply_pipeline, sort_keyed, is_total, key_order}
use tired.Runtime.Pipeline.Sorted.{Ascends}
use tired.Runtime.Pipeline.Stable.{KeepsTies, sort_keyed-KeepsTies}
use tired.Runtime.Operators.{compare_values}
use tired.Runtime.Reads.{AgreeOn, eval-reads, pipeline-reads}
use tired.Tests.Sample.{here, name, variable, a_plus_b, show_float}

-- Stand-ins for the arithmetic of floats and for the environment of the process.
abbrev pub floats : Floats
floats = record {
  add = λ a b. a + b;
  sub = λ a b. a;
  mul = λ a b. a;
  of_int = λ z. elim z [ pos n ↦ n | negsuc n ↦ 2 ^ 63 + n + 1 ];
  to_int = λ b. pos b;
  show = show_float;
  sort_by = λ order n. none;
}

abbrev pub no_variables : String → Option String
no_variables s = none

-- match a { Err(x) => x, _ => a + b }
abbrev error_or_sum : Expr
error_or_sum = match_on (
    match_expr (variable "a")
      (arm_and (ctor (name "Err") (pattern_and (binding (name "x")) no_patterns) here)
        (value_arm (variable "x")) here (arm_and (wildcard here) (value_arm a_plus_b) here no_arms))
      here)

abbrev pub one : Value
one = Value.int (pos 1)

abbrev env_x : Env
env_x = ("x", one) ∷ ("a", one) ∷ ("b", one) ∷ []

abbrev env_y : Env
env_y = ("a", one) ∷ ("b", one) ∷ ("y", one) ∷ []

eval_test : eval floats no_variables error_or_sum env_x none ≡ pure (Value.int (pos 2))
unfolding eval match_pattern eval_binary binary_values add_values Operators.arith wrapping_add
    of_bits to_bits
eval_test = refl

env-agree : AgreeOn [] (free_vars_of error_or_sum) env_x env_y
unfolding free_vars_of free_vars pattern_binds collect_pattern_binds insert remove insert_all
    remove_all
env-agree x h = ground (arith, h)

eval-reads_example :
    eval floats no_variables error_or_sum env_x none
    ≡ eval floats no_variables error_or_sum env_y none
unfolding Tidy IsPlain
eval-reads_example =
    eval-reads floats no_variables [] error_or_sum none env_x env_y
      (tt, ((((refl, tt), tt)), ((tt, (tt, tt)), tt))) env-agree

-- sort by .k desc | limit a
abbrev steps : PipelineOps
steps =
    op_and (sort_op (implicit_field (name "k")) true here)
      (op_and (limit (variable "a") here) no_ops)

steps-agree : AgreeOn [] (ops_vars steps []) env_x env_y
unfolding free_vars insert
steps-agree x h = ground (arith, h)

pipeline-reads_example :
    apply_pipeline floats no_variables steps env_x one
    ≡ apply_pipeline floats no_variables steps env_y one
unfolding Tidy TidyOps TidyOp
pipeline-reads_example =
    pipeline-reads floats no_variables [] steps one env_x env_y (tt, (tt, tt)) steps-agree

abbrev not_found : Pattern
not_found = ctor (name "Err") (pattern_and (binding (name "e")) no_patterns) here

match_pattern-BindsAll_example :
    BindsAll
      (pattern_binds not_found)
      (match_pattern not_found (Value.err (err_value "NotFound" (some 404) "" no_payload)))
unfolding IsPlain
match_pattern-BindsAll_example = match_pattern-BindsAll not_found _ (refl, tt)

abbrev keys : List (Value × Value)
keys = (Value.int (pos 2), one) ∷ (Value.int (pos 5), one) ∷ (Value.int (pos 2), Value.null) ∷ []

keys-total : is_total floats true keys ≡ true
unfolding is_total key_order compare_values partial_cmp is_nan float_order magnitude as_number
keys-total = refl

sort_keyed-KeepsTies_example :
    (ys : List (Value × Value)) × (sort_keyed floats true keys ≡ pure ys)
    × Perm ys keys
    × Ascends floats true ys
    × KeepsTies floats keys ys
sort_keyed-KeepsTies_example = sort_keyed-KeepsTies floats true keys keys-total

abbrev literal : ℕ → Expr
literal n = int (pos n) here
