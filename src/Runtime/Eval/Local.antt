-- ===== src/Runtime/Eval/Local.antt =====
-- What `eval` of crates/hale-runtime/src/eval.rs reads of its environment, against the free
-- variables that crates/hale-compiler/src/lower.rs computes for the schedule.
use tired.Prelude.{
  String, Option, none, some, ◌≡◌, refl, ◌∙◌, ap, List, [], ◌∷◌, ◌++◌, concat, arith, eq_iff,
}
use tired.Syntax.Ast.{
  Expr, int, float, bool, null, duration, str, ident, env_var, implicit_field, field, call, unary,
  binary, record_of, array, spread, lambda, match_on, range, StrParts, no_parts, lit, interp, Exprs,
  no_exprs, expr_and, Fields, no_fields, field_and, OptExpr, absent, present, MatchExpr, match_expr,
  MatchArms, no_arms, arm_and, ArmBody, value_arm, block_arm, retry_arm, block, Stmts, no_stmts,
  stmt_and, fetch_stmt, let_stmt, log_stmt, parallel, for_each, return_stmt, assert_stmt,
  using_mock, expr_stmt,
}
use tired.Compiler.Lower.FreeVars.{pattern_binds}
use tired.Compiler.Lower.Occurs.{
  occurs, in_parts, in_exprs, in_fields, in_match, in_arms, in_arm, in_stmts, in_opt,
}
use tired.Runtime.F64.{Floats}
use tired.Runtime.Value.{
  Value, Members, no_members, ErrValue, insert_member, values, get_field, truthy, new_err,
  with_payload,
}
use tired.Runtime.Json.{display}
use tired.Runtime.Action.{Action, pure, print, ◌>>=◌}
use tired.Runtime.Operators.{unary_value}
use tired.Runtime.Patterns.{match_pattern, Bindings}
use tired.Runtime.Patterns.Bound.{BindsAll, match_pattern-BindsAll}
use tired.Runtime.Eval.{
  Env, Elem, eval, eval_parts, eval_fields, eval_elems, eval_call, eval_arg, build_err, apply_first,
  eval_match, eval_arms, eval_arm, run_block, eval_opt, eval_binary, eval_method, first_match,
  element_values, variant_name, assert_that, ident_value, env_value,
}
use tired.Runtime.Eval.Tidy.{
  Tidy, TidyParts, TidyArgs, TidyFields, TidyMatch, TidyArms, TidyArm, TidyBlock, TidyOpt,
}
use tired.Runtime.Eval.Agree.{
  Agree, agreed, Agree-left, Agree-right, Agree-bind, Agree-push, Agree-match,
}

first_match-same :
    (bound : List String) (o : Option Bindings)
    → BindsAll bound o
    → {m m' : Action Value} {k k' : Bindings → Action Value} → m ≡ m'
    → ((bs : Bindings) → BindsAll bound (some bs) → k bs ≡ k' bs)
    → first_match o m k ≡ first_match o m' k'
first_match-same bound none b p q = p
first_match-same bound (some bs) b p q = q bs b

module _ (floats : Floats) (process_env : String → Option String) (names : List String) where
  mutual
    unfolding eval occurs Tidy

    pub eval-local :
        (e : Expr) (elem : Elem) {env env' : Env}
        → Tidy names e
        → Agree names (λ x. occurs x e) env env'
        → eval floats process_env e env elem ≡ eval floats process_env e env' elem
    eval-local (int _ _) elem t a = refl
    eval-local (float _ _) elem t a = refl
    eval-local (bool _ _) elem t a = refl
    eval-local (null _) elem t a = refl
    eval-local (duration _ _) elem t a = refl
    eval-local (str parts _) elem t a =
        λ i. parts-local parts elem t a i >>= λ s. pure (Value.str s)
    eval-local (ident n) elem t a =
        ap (ident_value n.node) (agreed n.node a (ground (arith, eq_iff n.node n.node)))
    eval-local (env_var n) elem t a =
        ap (λ v. pure (env_value v (process_env n.node))) (agreed n.node a (ground (arith, t)))
    eval-local (implicit_field _) elem t a = refl
    eval-local (field base f _) elem t a =
        λ i. eval-local base elem t a i >>= λ b. pure (get_field f.node b)
    eval-local (call callee args _) elem {env = env} (tc, ta) a =
        (λ i.
          eval_call floats process_env callee (arg-local args elem ta (Agree-left _ _ a) i)
            (err-local args elem ta (Agree-left _ _ a) i)
            (λ item. first-local args item ta (Agree-left _ _ a) i) env elem)
        ∙ call-local callee _ _ _ elem tc (Agree-right _ _ a)
    eval-local (unary op rhs _) elem t a = λ i. eval-local rhs elem t a i >>= unary_value op
    eval-local (binary op lhs rhs _) elem (hl, hr) a = λ i.
        eval_binary floats op (eval-local lhs elem hl (Agree-right _ _ a) i)
          (eval-local rhs elem hr (Agree-left _ _ a) i)
    eval-local (record_of _ fields _) elem t a =
        λ i. fields-local fields elem no_members t a i >>= λ o. pure (Value.object o)
    eval-local (array elems _) elem t a =
        λ i. elems-local elems elem t a i >>= λ vs. pure (Value.array (values vs))
    eval-local (spread e _) elem t a = eval-local e elem t a
    eval-local (lambda _ _ _) elem t a = refl
    eval-local (match_on m) elem t a = match-local m elem t a
    eval-local (range _ _ _) elem t a = refl

    parts-local :
        (ps : StrParts) (elem : Elem) {env env' : Env}
        → TidyParts names ps
        → Agree names (λ x. in_parts x ps) env env'
        → eval_parts floats process_env ps env elem ≡ eval_parts floats process_env ps env' elem
    parts-local no_parts elem t a = refl
    parts-local (lit s ps) elem t a =
        λ i. parts-local ps elem t a i >>= λ r. pure (concat (s ∷ r ∷ []))
    parts-local (interp e ps) elem (te, tp) a = λ i.
        eval-local e elem te (Agree-right _ _ a) i >>= λ v.
        parts-local ps elem tp (Agree-left _ _ a) i >>= λ s.
        pure (concat (display floats v ∷ s ∷ []))

    fields-local :
        (fs : Fields) (elem : Elem) (o : Members) {env env' : Env}
        → TidyFields names fs
        → Agree names (λ x. in_fields x fs) env env'
        → eval_fields floats process_env fs env elem o
          ≡ eval_fields floats process_env fs env' elem o
    fields-local no_fields elem o t a = refl
    fields-local (field_and k e fs) elem o (te, tf) a = λ i.
        eval-local e elem te (Agree-right _ _ a) i >>= λ v.
        fields-local fs elem (insert_member k.node v o) tf (Agree-left _ _ a) i

    elems-local :
        (es : Exprs) (elem : Elem) {env env' : Env}
        → TidyArgs names es
        → Agree names (λ x. in_exprs x es) env env'
        → eval_elems floats process_env es env elem ≡ eval_elems floats process_env es env' elem
    elems-local no_exprs elem t a = refl
    elems-local (expr_and e es) elem (te, ts) a = λ i.
        eval-local e elem te (Agree-right _ _ a) i >>= λ v.
        elems-local es elem ts (Agree-left _ _ a) i >>= λ vs. pure (element_values e v ++ vs)

    call-local :
        (callee : Expr) (first : Action Value) (error : Action ErrValue)
        (apply : Value → Action Value) (elem : Elem) {env env' : Env}
        → Tidy names callee
        → Agree names (λ x. occurs x callee) env env'
        → eval_call floats process_env callee first error apply env elem
          ≡ eval_call floats process_env callee first error apply env' elem
    call-local (field base f _) first error apply elem t a =
        λ i. eval_method f.node first (eval-local base elem t a i) apply
    call-local _ first error apply elem t a = refl

    arg-local :
        (es : Exprs) (elem : Elem) {env env' : Env}
        → TidyArgs names es
        → Agree names (λ x. in_exprs x es) env env'
        → eval_arg floats process_env es env elem ≡ eval_arg floats process_env es env' elem
    arg-local no_exprs elem t a = refl
    arg-local (expr_and e _) elem (te, ts) a = eval-local e elem te (Agree-right _ _ a)

    err-local :
        (es : Exprs) (elem : Elem) {env env' : Env}
        → TidyArgs names es
        → Agree names (λ x. in_exprs x es) env env'
        → build_err floats process_env es env elem ≡ build_err floats process_env es env' elem
    err-local no_exprs elem t a = refl
    err-local (expr_and (ident n) _) elem t a = refl
    err-local (expr_and (call callee args _) _) elem ((tc, ta), ts) a = λ i.
        arg-local args elem ta (Agree-left _ _ (Agree-right _ _ a)) i >>= λ v.
        pure (with_payload (new_err (variant_name callee) none (variant_name callee)) v)
    err-local (expr_and e _) elem (te, ts) a = λ i.
        eval-local e elem te (Agree-right _ _ a) i >>= λ v.
        pure (new_err "Error" none (display floats v))

    pub first-local :
        (es : Exprs) (item : Value) {env env' : Env}
        → TidyArgs names es
        → Agree names (λ x. in_exprs x es) env env'
        → apply_first floats process_env es env item ≡ apply_first floats process_env es env' item
    first-local no_exprs item t a = refl
    first-local (expr_and (lambda param body _) _) item (te, ts) a =
        eval-local body (some item) te (Agree-bind param.node item (Agree-right _ _ a))
    first-local (expr_and e _) item (te, ts) a = eval-local e (some item) te (Agree-right _ _ a)

    match-local :
        (m : MatchExpr) (elem : Elem) {env env' : Env}
        → TidyMatch names m
        → Agree names (λ x. in_match x m) env env'
        → eval_match floats process_env m env elem ≡ eval_match floats process_env m env' elem
    match-local (match_expr scrutinee arms _) elem (ts, ta) a = λ i.
        eval-local scrutinee elem ts (Agree-right _ _ a) i >>= λ v.
        arms-local arms v elem ta (Agree-left _ _ a) i

    arms-local :
        (arms : MatchArms) (v : Value) (elem : Elem) {env env' : Env}
        → TidyArms names arms
        → Agree names (λ x. in_arms x arms) env env'
        → eval_arms floats process_env arms v env elem
          ≡ eval_arms floats process_env arms v env' elem
    arms-local no_arms v elem t a = refl
    arms-local (arm_and p b _ arms) v elem ((tp, tb), ta) a =
        first_match-same (pattern_binds p) (match_pattern p v) (match_pattern-BindsAll p v tp)
          (arms-local arms v elem ta (Agree-left _ _ a))
          (λ bs h. arm-local b elem tb (Agree-match (pattern_binds p) bs h (Agree-right _ _ a)))

    arm-local :
        (b : ArmBody) (elem : Elem) {env env' : Env}
        → TidyArm names b
        → Agree names (λ x. in_arm x b) env env'
        → eval_arm floats process_env b env elem ≡ eval_arm floats process_env b env' elem
    arm-local (value_arm e) elem t a = eval-local e elem t a
    arm-local (block_arm (block ss _)) elem t a = block-local ss _ t a
    arm-local (retry_arm _ _) elem t a = refl

    block-local :
        (ss : Stmts) (last : Value) {env env' : Env}
        → TidyBlock names ss
        → Agree names (λ x. in_stmts x ss) env env'
        → run_block floats process_env ss env last ≡ run_block floats process_env ss env' last
    block-local no_stmts last t a = refl
    block-local (stmt_and (let_stmt n e _) ss) last (te, ts) a = λ i.
        eval-local e none te (Agree-right _ _ a) i >>= λ v.
        block-local ss last ts (Agree-push n.node v (Agree-left _ _ a)) i
    block-local (stmt_and (log_stmt e _) ss) last (te, ts) a = λ i.
        eval-local e none te (Agree-right _ _ a) i >>= λ v.
        print (display floats v) >>= λ _. block-local ss last ts (Agree-left _ _ a) i
    block-local (stmt_and (return_stmt value _) ss) last t a = opt-local value t (Agree-right _ _ a)
    block-local (stmt_and (expr_stmt e _ _) ss) last (te, ts) a = λ i.
        eval-local e none te (Agree-right _ _ a) i >>= λ v. block-local ss v ts (Agree-left _ _ a) i
    block-local (stmt_and (assert_stmt e _) ss) last (te, ts) a = λ i.
        eval-local e none te (Agree-right _ _ a) i >>= λ v.
        assert_that (truthy v) >>= λ _. block-local ss last ts (Agree-left _ _ a) i
    block-local (stmt_and (fetch_stmt _) ss) last t a = refl
    block-local (stmt_and (parallel _ _) ss) last t a = refl
    block-local (stmt_and (for_each _ _ _ _) ss) last t a = refl
    block-local (stmt_and (using_mock _ _) ss) last t a = block-local ss last t (Agree-left _ _ a)

    pub opt-local :
        (o : OptExpr) {env env' : Env}
        → TidyOpt names o
        → Agree names (λ x. in_opt x o) env env'
        → eval_opt floats process_env o env ≡ eval_opt floats process_env o env'
    opt-local absent t a = refl
    opt-local (present e) t a = eval-local e none t a
