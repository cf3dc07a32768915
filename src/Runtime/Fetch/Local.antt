-- ===== src/Runtime/Fetch/Local.antt =====
-- What `do_fetch` of crates/hale-runtime/src/exec.rs reads of its environment, against the reads
-- of the node that crates/hale-compiler/src/lower.rs makes of the statement.
use tired.Prelude.{
  String, Option, none, some, if◌then◌else◌, str_eq, ◌≡◌, refl, sym, ap, subst, List, [], ◌∷◌,
  concat,
}
use tired.Syntax.Ast
use tired.Syntax.Ast.{
  Expr, Fields, no_fields, field_and, OptExpr, absent, present, PathPattern, path, PathSegs,
  no_segs, literal_and, param_and, PipelineOps, no_ops, op_and, FetchStmt,
}
use tired.Compiler.Ir.{seg_list, segments, FetchIr}
use tired.Compiler.Lower.Occurs.{occurs, in_fields, in_opt, in_path, in_segs, in_ops}
use tired.Compiler.Lower.Nodes.{field_list, op_list, opt_expr}
use tired.Runtime.F64.{Floats}
use tired.Runtime.Value.{Outcome, success, failure}
use tired.Runtime.Json.{display}
use tired.Runtime.Action.{pure, ◌>>=◌}
use tired.Runtime.Eval.{Env}
use tired.Runtime.Eval.Agree.{Agree, Agree-left, Agree-right}
use tired.Runtime.Eval.Tidy.{Tidy, TidyFields, TidyOpt, TidyOps}
use tired.Runtime.Eval.Local.{eval-local}
use tired.Runtime.Pipeline.{apply_pipeline}
use tired.Runtime.Pipeline.Local.{pipeline-local}
use tired.Runtime.Fetch.{
  ops_of, wrap_value, finish_fetch, eval_body, eval_key, eval_text, path_texts, request_path,
  request_params,
}

unfoldable pub TidySegs : List String → PathSegs → Type 0
TidySegs names no_segs = Unit
TidySegs names (literal_and _ ss) = TidySegs names ss
TidySegs names (param_and e ss) = Tidy names e × TidySegs names ss

abbrev pub TidyPath : List String → PathPattern → Type 0
TidyPath names (path ss _) = TidySegs names ss

-- The expressions of the statement: path, parameters, body, idempotency key and pipeline.
abbrev pub TidyFetch : List String → FetchStmt → Type 0
TidyFetch names (Ast.fetch _ _ p params payload key ops _ _) =
    (TidyPath names p × TidyFields names params)
    × ((TidyOpt names payload × TidyOpt names key) × TidyOps names ops)

ops_of-op_list : (ops : PipelineOps) → ops_of (op_list ops) ≡ ops
unfolding ops_of op_list
ops_of-op_list no_ops = refl
ops_of-op_list (op_and op ops) = ap (λ r. op_and op r) (ops_of-op_list ops)

module _ (floats : Floats) (process_env : String → Option String) where
  module _ (names : List String) (env env' : Env) where
    text-local :
        (e : Expr)
        → Tidy names e
        → Agree names (λ x. occurs x e) env env'
        → eval_text floats process_env e env ≡ eval_text floats process_env e env'
    unfolding eval_text
    text-local e t a =
        λ i. eval-local floats process_env names e none t a i >>= λ v. pure (display floats v)

    path-local :
        (ss : PathSegs)
        → TidySegs names ss
        → Agree names (λ x. in_segs x ss) env env'
        → path_texts floats process_env (seg_list ss) env
          ≡ path_texts floats process_env (seg_list ss) env'
    unfolding seg_list path_texts TidySegs occurs
    path-local no_segs t a = refl
    path-local (literal_and l ss) t a =
        λ i. path-local ss t a i >>= λ rest. pure (concat ("/" ∷ l ∷ rest ∷ []))
    path-local (param_and e ss) (te, ts) a = λ i. text-local e te (Agree-right _ _ a) i >>= λ t.
        path-local ss ts (Agree-left _ _ a) i >>= λ rest. pure (concat ("/" ∷ t ∷ rest ∷ []))

    pub request_path-local :
        (p : PathPattern)
        → TidyPath names p
        → Agree names (λ x. in_path x p) env env'
        → request_path floats process_env (segments p) env
          ≡ request_path floats process_env (segments p) env'
    unfolding segments request_path occurs
    request_path-local (path ss _) t a =
        λ i. path-local ss t a i >>= λ p. pure (if str_eq p "" then "/" else p)

    pub params-local :
        (fs : Fields)
        → TidyFields names fs
        → Agree names (λ x. in_fields x fs) env env'
        → request_params floats process_env (field_list fs) env
          ≡ request_params floats process_env (field_list fs) env'
    unfolding field_list request_params Tidy occurs
    params-local no_fields t a = refl
    params-local (field_and k e fs) (te, ts) a = λ i. text-local e te (Agree-right _ _ a) i >>= λ t.
        params-local fs ts (Agree-left _ _ a) i >>= λ rest. pure ((k.node, t) ∷ rest)

    pub ops-local :
        (ops : PipelineOps)
        → TidyOps names ops
        → Agree names (λ x. in_ops x ops) env env'
        → apply_pipeline floats process_env (ops_of (op_list ops)) env
          ≡ apply_pipeline floats process_env (ops_of (op_list ops)) env'
    ops-local ops t a =
        subst
          (λ o. apply_pipeline floats process_env o env ≡ apply_pipeline floats process_env o env')
          (sym (ops_of-op_list ops)) (pipeline-local floats process_env names ops env env' t a)

  module _ (to_uppercase : String → String) where
    pub body-local :
        (names : List String) (o : OptExpr) (env env' : Env)
        → TidyOpt names o
        → Agree names (λ x. in_opt x o) env env'
        → eval_body floats process_env to_uppercase (opt_expr o) env
          ≡ eval_body floats process_env to_uppercase (opt_expr o) env'
    unfolding eval_body opt_expr Tidy occurs
    body-local names absent env env' t a = refl
    body-local names (present e) env env' t a =
        λ i. eval-local floats process_env names e none t a i >>= λ v. pure (some v)

    pub key-local :
        (names : List String) (o : OptExpr) (env env' : Env)
        → TidyOpt names o
        → Agree names (λ x. in_opt x o) env env'
        → eval_key floats process_env to_uppercase (opt_expr o) env
          ≡ eval_key floats process_env to_uppercase (opt_expr o) env'
    unfolding eval_key opt_expr Tidy occurs
    key-local names absent env env' t a = refl
    key-local names (present e) env env' t a =
        λ i. text-local names env env' e t a i >>= λ v. pure (some v)

    pub finish-local :
        (f : FetchIr) (where_to : String) (out : Outcome) (env env' : Env)
        → apply_pipeline floats process_env (ops_of f.pipeline) env
          ≡ apply_pipeline floats process_env (ops_of f.pipeline) env'
        → finish_fetch floats process_env to_uppercase f where_to env out
          ≡ finish_fetch floats process_env to_uppercase f where_to env' out
    unfolding finish_fetch
    finish-local f where_to (success v) env env' h =
        λ i. h i v >>= λ piped. pure (wrap_value f.as_result piped)
    finish-local f where_to (failure e) env env' h = refl
