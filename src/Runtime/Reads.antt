-- ===== src/Runtime/Reads.antt =====
-- crates/hale-runtime/src/eval.rs against crates/hale-compiler/src/lower.rs: what evaluation
-- reads, and the free variables from which the compiler schedules.
use tired.Prelude.{String, Option, true, ◌||◌, ◌≡◌, ap, contains, lookup, List, [], arith}
use tired.Syntax.Ast.{Expr, PipelineOps}
use tired.Compiler.Lower.FreeVars.{free_vars_of, ops_vars}
use tired.Compiler.Lower.Occurs.Free.{contains-free_vars_of, contains-ops_vars}
use tired.Runtime.F64.{Floats}
use tired.Runtime.Value.{Value}
use tired.Runtime.Eval.{Env, Elem, eval}
use tired.Runtime.Eval.Agree.{agree}
use tired.Runtime.Eval.Tidy.{Tidy, TidyOps}
use tired.Runtime.Eval.Local.{eval-local}
use tired.Runtime.Pipeline.{apply_pipeline}
use tired.Runtime.Pipeline.Local.{pipeline-local}

-- The environments agree on every name of the two lists.
abbrev pub AgreeOn : List String → List String → Env → Env → Type 0
AgreeOn names read env env' =
    (x : String) → contains x names || contains x read ≡ true → lookup x env ≡ lookup x env'

module _ (floats : Floats) (process_env : String → Option String) (names : List String) where
  -- The value, the error and the printed lines of an expression depend only on its free variables, as
  -- the compiler computes them, and on the given names, if it reads only these by `$name`, and if its
  -- patterns have at most one argument at each constructor and none at `None`.
  pub eval-reads :
      (e : Expr) (elem : Elem) (env env' : Env)
      → Tidy names e
      → AgreeOn names (free_vars_of e) env env'
      → eval floats process_env e env elem ≡ eval floats process_env e env' elem
  eval-reads e elem env env' t a =
      eval-local floats process_env names e elem t
        (agree λ x h. a x (ground (arith, contains-free_vars_of x e)))

  -- What a pipeline makes of a value depends only on the variables that the compiler reads off its
  -- steps, and on the given names, under the same conditions on each step.
  pub pipeline-reads :
      (ops : PipelineOps) (value : Value) (env env' : Env)
      → TidyOps names ops
      → AgreeOn names (ops_vars ops []) env env'
      → apply_pipeline floats process_env ops env value
        ≡ apply_pipeline floats process_env ops env' value
  pipeline-reads ops value env env' t a =
      ap (λ f. f value)
        (pipeline-local floats process_env names ops env env' t
          (agree λ x h. a x (ground (arith, contains-ops_vars x ops []))))
