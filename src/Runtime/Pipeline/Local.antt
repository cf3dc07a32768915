-- ===== src/Runtime/Pipeline/Local.antt =====
-- What `apply_pipeline` of crates/hale-runtime/src/eval.rs reads of its environment.
use tired.Prelude.{String, Option, none, some, true, ◌≡◌, refl, List, []}
use tired.Syntax.Ast.{
  Expr, expr_and, no_exprs, OptExpr, absent, present, PipelineOps, no_ops, op_and, PipelineOp,
  filter, map_op, sort_op, limit, skip, reverse_op, unique, flatten_op, count_op, sum_op,
}
use tired.Compiler.Lower.Occurs.{occurs, in_ops, in_op, in_opt}
use tired.Runtime.F64.{Floats}
use tired.Runtime.Action.{pure, ◌>>=◌}
use tired.Runtime.Eval.{Env, as_array, each}
use tired.Runtime.Eval.Agree.{Agree, Agree-left, Agree-right}
use tired.Runtime.Eval.Tidy.{Tidy, TidyOp, TidyOps, TidyOpt}
use tired.Runtime.Eval.Local.{eval-local, first-local}
use tired.Runtime.Pipeline.{
  apply_lambda, apply_op, apply_pipeline, filter_items, keyed, key_of, count_value, count_arg,
  of_items, truncate, skip_items, sort_keyed, seconds, unique_items, sum_items,
}

module _ (floats : Floats) (process_env : String → Option String) (names : List String) where
  lambda-local :
      (e : Expr) (env env' : Env)
      → Tidy names e
      → Agree names (λ x. occurs x e) env env'
      → apply_lambda floats process_env e env ≡ apply_lambda floats process_env e env'
  unfolding apply_lambda Tidy occurs
  lambda-local e env env' t a =
      λ i item. first-local floats process_env names (expr_and e no_exprs) item (t, tt) a i

  key-local :
      (by : OptExpr) (env env' : Env)
      → TidyOpt names by
      → Agree names (λ x. in_opt x by) env env'
      → key_of floats process_env by env ≡ key_of floats process_env by env'
  unfolding Tidy occurs
  key-local absent env env' t a = refl
  key-local (present e) env env' t a = λ i v. eval-local floats process_env names e (some v) t a i

  count-local :
      (count : Expr) (op : String) (env env' : Env)
      → Tidy names count
      → Agree names (λ x. occurs x count) env env'
      → count_arg floats process_env count env op ≡ count_arg floats process_env count env' op
  unfolding count_arg
  count-local count op env env' t a = λ i.
      eval-local floats process_env names count none t a i >>= count_value floats process_env op

  op-local :
      (op : PipelineOp) (env env' : Env)
      → TidyOp names op
      → Agree names (λ x. in_op x op) env env'
      → apply_op floats process_env op env ≡ apply_op floats process_env op env'
  unfolding apply_op TidyOp Tidy occurs
  op-local (filter e _) env env' t a = λ i value.
      filter_items floats process_env (lambda-local e env env' t a i) (as_array value) >>= λ vs.
      pure (of_items vs)
  op-local (map_op e _) env env' t a =
      λ i value. each (lambda-local e env env' t a i) (as_array value) >>= λ vs. pure (of_items vs)
  op-local (sort_op by desc _) env env' t a = λ i value.
      keyed floats process_env (λ v. eval-local floats process_env names by (some v) t a i)
        (as_array value)
      >>= λ kvs. sort_keyed floats desc kvs >>= λ sorted. pure (of_items (seconds sorted))
  op-local (limit count _) env env' t a = λ i value.
      count-local count "limit" env env' t a i >>= λ n.
      pure (of_items (truncate n (as_array value)))
  op-local (skip count _) env env' t a = λ i value. count-local count "skip" env env' t a i >>= λ n.
      pure (of_items (skip_items n (as_array value)))
  op-local (reverse_op _) env env' t a = refl
  op-local (flatten_op _) env env' t a = refl
  op-local (unique by _) env env' t a = λ i value.
      keyed floats process_env (key-local by env env' t a i) (as_array value) >>= λ kvs.
      pure (of_items (unique_items [] kvs))
  op-local (count_op _) env env' t a = refl
  op-local (sum_op by _) env env' t a =
      λ i value. sum_items floats (key-local by env env' t a i) (as_array value) (0, true)

  pub pipeline-local :
      (ops : PipelineOps) (env env' : Env)
      → TidyOps names ops
      → Agree names (λ x. in_ops x ops) env env'
      → apply_pipeline floats process_env ops env ≡ apply_pipeline floats process_env ops env'
  unfolding apply_pipeline TidyOps occurs
  pipeline-local no_ops env env' t a = refl
  pipeline-local (op_and op ops) env env' (t, ts) a = λ i value.
      op-local op env env' t (Agree-right _ _ a) i value
      >>= pipeline-local ops env env' ts (Agree-left _ _ a) i
