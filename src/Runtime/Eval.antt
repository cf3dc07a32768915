-- ===== src/Runtime/Eval.antt =====
-- crates/hale-runtime/src/eval.rs: `eval` and the functions that call it and are called by it.
-- An environment lists the newest binding first. `floats` is the arithmetic of the machine,
-- `process_env` reads the environment of the process.
mod Calls
pub mod Agree
pub mod Arithmetic
pub mod Tidy
pub mod Local
unfoldable pub use tired.Runtime.Eval.Calls.*
use tired.Prelude.{
  ℕ, String, Option, none, some, Bool, true, false, str_eq, if◌then◌else◌, List, [], ◌∷◌, ◌++◌,
  lookup, concat,
}
use tired.Syntax.Span.{Name}
use tired.Syntax.Ast.{
  Expr, int, float, bool, null, duration, str, ident, env_var, implicit_field, field, call, unary,
  binary, record_of, array, spread, lambda, match_on, range, StrParts, no_parts, lit, interp, Exprs,
  no_exprs, expr_and, Fields, no_fields, field_and, OptExpr, absent, present, MatchExpr, match_expr,
  MatchArms, no_arms, arm_and, ArmBody, value_arm, block_arm, retry_arm, block, Stmts, no_stmts,
  stmt_and, fetch_stmt, let_stmt, log_stmt, parallel, for_each, return_stmt, assert_stmt,
  using_mock, expr_stmt,
}
use tired.Runtime.F64.{Floats}
use tired.Runtime.Value.{
  Value, Values, no_values, Members, no_members, ErrValue, new_err, with_payload, values, truthy,
  get_field, insert_member,
}
use tired.Runtime.Json.{display}
use tired.Runtime.Action.{Action, pure, raise, print, ◌>>=◌}
use tired.Runtime.Operators.{unary_value}
use tired.Runtime.Patterns.{match_pattern}

abbrev pub Env : Type 0
Env = List (String × Value)

abbrev pub Elem : Type 0
Elem = Option Value

unfoldable pub bind_all : List (String × Value) → Env → Env
bind_all [] env = env
bind_all (b ∷ bs) env = bind_all bs (b ∷ env)

unfoldable pub ident_value : String → Option Value → Action Value
ident_value name (some v) = pure v
ident_value name none =
    if str_eq name "None"
    then pure Value.null
    else raise (concat ("undefined variable `" ∷ name ∷ "`" ∷ []))

unfoldable pub env_value : Option Value → Option String → Value
env_value (some v) _ = v
env_value none (some s) = Value.str s
env_value none none = Value.null

unfoldable pub elem_field : String → Elem → Value
elem_field name none = Value.null
elem_field name (some v) = get_field name v

module _ (floats : Floats) (process_env : String → Option String) where
  unfoldable mutual
    unfolding ident_value env_value elem_field element_values bind_all

    pub eval : Expr → Env → Elem → Action Value
    eval (int n _) env elem = pure (Value.int n)
    eval (float f _) env elem = pure (Value.float f)
    eval (bool b _) env elem = pure (Value.bool b)
    eval (null _) env elem = pure Value.null
    eval (duration d _) env elem = pure (Value.duration d)
    eval (str parts _) env elem = eval_parts parts env elem >>= λ s. pure (Value.str s)
    eval (ident n) env elem = ident_value n.node (lookup n.node env)
    eval (env_var n) env elem = pure (env_value (lookup n.node env) (process_env n.node))
    eval (implicit_field f) env elem = pure (elem_field f.node elem)
    eval (field base f _) env elem = eval base env elem >>= λ b. pure (get_field f.node b)
    eval (call callee args _) env elem =
        eval_call callee (eval_arg args env elem) (build_err args env elem) (apply_first args env)
          env elem
    eval (unary op rhs _) env elem = eval rhs env elem >>= unary_value op
    eval (binary op lhs rhs _) env elem =
        eval_binary floats op (eval lhs env elem) (eval rhs env elem)
    eval (record_of _ fields _) env elem =
        eval_fields fields env elem no_members >>= λ o. pure (Value.object o)
    eval (array elems _) env elem =
        eval_elems elems env elem >>= λ vs. pure (Value.array (values vs))
    eval (spread e _) env elem = eval e env elem
    eval (lambda _ _ _) env elem = raise "a lambda is only valid inside a pipeline operator"
    eval (match_on m) env elem = eval_match m env elem
    eval (range _ _ _) env elem = raise "a range is not a runtime value"

    eval_parts : StrParts → Env → Elem → Action String
    eval_parts no_parts env elem = pure ""
    eval_parts (lit t ps) env elem = eval_parts ps env elem >>= λ s. pure (concat (t ∷ s ∷ []))
    eval_parts (interp e ps) env elem = eval e env elem >>= λ v.
        eval_parts ps env elem >>= λ s. pure (concat (display floats v ∷ s ∷ []))

    eval_fields : Fields → Env → Elem → Members → Action Members
    eval_fields no_fields env elem o = pure o
    eval_fields (field_and k e fs) env elem o =
        eval e env elem >>= λ v. eval_fields fs env elem (insert_member k.node v o)

    -- `eval` of a spread is `eval` of what it spreads.
    eval_elems : Exprs → Env → Elem → Action (List Value)
    eval_elems no_exprs env elem = pure []
    eval_elems (expr_and e es) env elem =
        eval e env elem >>= λ v. eval_elems es env elem >>= λ vs. pure (element_values e v ++ vs)

    -- The callee, with the first argument as a value, as an error and as a pipeline predicate.
    eval_call :
        Expr → Action Value → Action ErrValue → (Value → Action Value) → Env → Elem → Action Value
    eval_call (ident n) first error apply env elem = call_named n.node first error
    eval_call (field base f _) first error apply env elem =
        eval_method f.node first (eval base env elem) apply
    eval_call _ first error apply env elem = pure Value.null

    -- `eval_arg(args, 0, …)`
    eval_arg : Exprs → Env → Elem → Action Value
    eval_arg no_exprs env elem = pure Value.null
    eval_arg (expr_and e _) env elem = eval e env elem

    build_err : Exprs → Env → Elem → Action ErrValue
    build_err no_exprs env elem = pure (new_err "Error" none "Error")
    build_err (expr_and (ident n) _) env elem = pure (new_err n.node none n.node)
    build_err (expr_and (call callee args _) _) env elem = eval_arg args env elem >>= λ v.
        pure (with_payload (new_err (variant_name callee) none (variant_name callee)) v)
    build_err (expr_and e _) env elem =
        eval e env elem >>= λ v. pure (new_err "Error" none (display floats v))

    -- `apply_lambda(args.first(), …)`
    pub apply_first : Exprs → Env → Value → Action Value
    apply_first no_exprs env item = pure item
    apply_first (expr_and (lambda param body _) _) env item =
        eval body ((param.node, item) ∷ env) (some item)
    apply_first (expr_and e _) env item = eval e env (some item)

    -- `eval_match_sync`
    eval_match : MatchExpr → Env → Elem → Action Value
    eval_match (match_expr scrutinee arms _) env elem =
        eval scrutinee env elem >>= λ v. eval_arms arms v env elem

    eval_arms : MatchArms → Value → Env → Elem → Action Value
    eval_arms no_arms v env elem = raise "no match arm applied"
    eval_arms (arm_and p b _ arms) v env elem =
        first_match (match_pattern p v) (eval_arms arms v env elem)
          (λ binds. eval_arm b (bind_all binds env) elem)

    eval_arm : ArmBody → Env → Elem → Action Value
    eval_arm (value_arm e) env elem = eval e env elem
    eval_arm (block_arm (block ss _)) env elem = run_block ss env Value.null
    eval_arm (retry_arm _ _) env elem = raise "`retry` is only valid in a statement-level match"

    -- `run_block_sync`
    run_block : Stmts → Env → Value → Action Value
    run_block no_stmts env last = pure last
    run_block (stmt_and (let_stmt n e _) ss) env last =
        eval e env none >>= λ v. run_block ss ((n.node, v) ∷ env) last
    run_block (stmt_and (log_stmt e _) ss) env last =
        eval e env none >>= λ v. print (display floats v) >>= λ _. run_block ss env last
    run_block (stmt_and (return_stmt value _) ss) env last = eval_opt value env
    run_block (stmt_and (expr_stmt e _ _) ss) env last = eval e env none >>= λ v. run_block ss env v
    run_block (stmt_and (assert_stmt e _) ss) env last =
        eval e env none >>= λ v. assert_that (truthy v) >>= λ _. run_block ss env last
    run_block (stmt_and (fetch_stmt _) ss) env last = not_supported
    run_block (stmt_and (parallel _ _) ss) env last = not_supported
    run_block (stmt_and (for_each _ _ _ _) ss) env last = not_supported
    run_block (stmt_and (using_mock _ _) ss) env last = run_block ss env last

    eval_opt : OptExpr → Env → Action Value
    eval_opt absent env = pure Value.null
    eval_opt (present e) env = eval e env none
