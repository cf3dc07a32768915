-- ===== src/Runtime/Fetch/Request.antt =====
-- crates/hale-runtime/src/exec.rs: the path and the query that `do_fetch` sends.
use tired.Prelude.{String, Option, none, some, List, [], ◌∷◌, concat, join, str_eq, if◌then◌else◌}
use tired.Syntax.Ast.{Expr}
use tired.Compiler.Ir.{PathSeg, literal, param, BatchSpec, MappedIds}
use tired.Runtime.F64.{Floats}
use tired.Runtime.Value.{Value}
use tired.Runtime.Json.{display}
use tired.Runtime.Action.{Action, pure, ◌>>=◌}
use tired.Runtime.Eval.{Env, eval, as_array, each}
use tired.Runtime.Recording.{Query}

module _ (floats : Floats) (process_env : String → Option String) where
  unfoldable pub eval_text : Expr → Env → Action String
  eval_text e env = eval floats process_env e env none >>= λ v. pure (display floats v)

  unfoldable pub path_texts : List PathSeg → Env → Action String
  path_texts [] env = pure ""
  path_texts (literal l ∷ ss) env =
      path_texts ss env >>= λ rest. pure (concat ("/" ∷ l ∷ rest ∷ []))
  path_texts (param e ∷ ss) env =
      eval_text e env >>= λ t. path_texts ss env >>= λ rest. pure (concat ("/" ∷ t ∷ rest ∷ []))

  unfoldable pub request_path : List PathSeg → Env → Action String
  unfolding path_texts
  request_path ss env = path_texts ss env >>= λ p. pure (if str_eq p "" then "/" else p)

  unfoldable pub request_params : List (String × Expr) → Env → Action Query
  request_params [] env = pure []
  request_params ((k, e) ∷ ps) env =
      eval_text e env >>= λ t. request_params ps env >>= λ rest. pure ((k, t) ∷ rest)

  unfoldable pub eval_ids : List Expr → Env → Action (List String)
  eval_ids [] env = pure []
  eval_ids (e ∷ es) env = eval_text e env >>= λ t. eval_ids es env >>= λ rest. pure (t ∷ rest)

  -- The key of each element, with the variable of the loop bound to it.
  unfoldable pub mapped_ids : MappedIds → Env → List Value → Action (List String)
  mapped_ids m env vs =
      each
        (λ v. eval floats process_env m.key ((m.var, v) ∷ env) (some v) >>= λ k.
          pure (display floats k))
        vs

  batch_pair : String → List String → Query
  batch_pair query_param [] = []
  batch_pair query_param (id ∷ ids) = (query_param, join "," (id ∷ ids)) ∷ []

  -- What the batch adds to the query, or `none` if a loop over nothing sends no request.
  mapped_query : String → MappedIds → Env → List Value → Action (Option Query)
  mapped_query query_param m env [] = pure none
  mapped_query query_param m env (v ∷ vs) =
      mapped_ids m env (v ∷ vs) >>= λ ids. pure (some (batch_pair query_param ids))

  unfoldable pub batch_query : Option BatchSpec → Env → Action (Option Query)
  unfolding batch_pair mapped_query
  batch_query none env = pure (some [])
  batch_query (some b) env = elim b.mapped [
    | none ↦ eval_ids b.ids env >>= λ ids. pure (some (batch_pair b.query_param ids))
    | some m ↦ eval floats process_env m.coll env none >>= λ coll.
        mapped_query b.query_param m env (as_array coll)
  ]
