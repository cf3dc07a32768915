-- ===== src/Runtime/Fetch/Reads.antt =====
-- crates/hale-runtime/src/exec.rs against crates/hale-compiler/src/lower.rs: what the execution of
-- a lowered request reads.
use tired.Prelude.{
  String, Option, none, some, Bool, ◌||◌, ◌≡◌, refl, List, [], ◌++◌, contains, All, arith,
}
use tired.Syntax.Ast
use tired.Syntax.Ast.{FetchStmt}
use tired.Compiler.Ir
use tired.Compiler.Ir.{segments, FetchIr, NodeKind, Node}
use tired.Compiler.Lower.FreeVars.{opt_vars, fields_vars, path_vars, ops_vars}
use tired.Compiler.Lower.Occurs.{in_ops, in_opt, in_fields, in_path}
use tired.Compiler.Lower.Occurs.Free.{
  contains-opt_vars, contains-fields_vars, contains-path_vars, contains-ops_vars,
}
use tired.Compiler.Lower.Nodes.{lower_fetch, push}
use tired.Runtime.F64.{Floats}
use tired.Runtime.Value.{Value}
use tired.Runtime.Action.{Action, ◌>>=◌}
use tired.Runtime.Eval.{Env}
use tired.Runtime.Eval.Agree.{Agree, agree, Agree-left, Agree-right}
use tired.Runtime.Pipeline.{apply_pipeline}
use tired.Runtime.Reads.{AgreeOn}
use tired.Runtime.Recording.{Query}
use tired.Runtime.Fetch.{
  Shared, HttpEngine, ops_of, verified, outcome_of, eval_body, eval_key, send_request, do_fetch,
  request_path, request_params, batch_query,
}
use tired.Runtime.Fetch.Local.{
  TidyFetch, request_path-local, params-local, ops-local, body-local, key-local, finish-local,
}

-- The variables of the expressions, from the pipeline back to the path.
abbrev in_fetch : FetchStmt → String → Bool
in_fetch (Ast.fetch _ _ p params payload key ops _ _) x =
    in_ops x ops || (in_opt x key || (in_opt x payload || (in_fields x params || in_path x p)))

fetch_reads : FetchStmt → List String
fetch_reads (Ast.fetch _ _ p params payload key ops _ _) =
    ops_vars ops (opt_vars key (opt_vars payload (fields_vars params (path_vars p []))))

contains-fetch_reads : (s : FetchStmt) (x : String) → contains x (fetch_reads s) ≡ in_fetch s x
unfolding fetch_reads
contains-fetch_reads (Ast.fetch _ _ p params payload key ops _ _) x = ground (
  arith,
  contains-ops_vars x ops (opt_vars key (opt_vars payload (fields_vars params (path_vars p [])))),
  contains-opt_vars x key (opt_vars payload (fields_vars params (path_vars p []))),
  contains-opt_vars x payload (fields_vars params (path_vars p [])),
  contains-fields_vars x params (path_vars p []),
  contains-path_vars x p [],
)

fetch-Agree :
    (names : List String) (s : FetchStmt) (env env' : Env)
    → AgreeOn names (fetch_reads s) env env'
    → Agree names (in_fetch s) env env'
fetch-Agree names s env env' a = agree λ x h. a x (ground (arith, contains-fetch_reads s x, h))

module _ (floats : Floats) (process_env : String → Option String) (to_uppercase : String → String)
    (http : HttpEngine) (shared : Shared) (active names : List String) where
  abbrev run : FetchIr → Env → Action Value
  run f env = do_fetch floats process_env to_uppercase http shared active f env

  send-local :
      (f : FetchIr) (where_to : String) (query : Query) (batch : Option Query) (env env' : Env)
      → eval_body floats process_env to_uppercase f.body env
        ≡ eval_body floats process_env to_uppercase f.body env'
      → eval_key floats process_env to_uppercase f.idempotency_key env
        ≡ eval_key floats process_env to_uppercase f.idempotency_key env'
      → apply_pipeline floats process_env (ops_of f.pipeline) env
        ≡ apply_pipeline floats process_env (ops_of f.pipeline) env'
      → send_request floats process_env to_uppercase http shared active f env where_to query batch
        ≡ send_request floats process_env to_uppercase http shared active f env' where_to query
            batch
  unfolding send_request
  send-local f where_to query none env env' hb hk hp = refl
  send-local f where_to query (some batch) env env' hb hk hp = λ i.
      let all = query ++ batch in
      hb i >>= λ body. hk i >>= λ key.
      outcome_of floats process_env to_uppercase shared active f where_to all
        (http f where_to all body key)
      >>= λ outcome.
          verified floats process_env to_uppercase f shared.table outcome
            (finish-local floats process_env to_uppercase f where_to outcome env env' hp i)

  do_fetch-same :
      (f : FetchIr) (env env' : Env)
      → request_path floats process_env (segments f.path) env
        ≡ request_path floats process_env (segments f.path) env'
      → request_params floats process_env f.params env
        ≡ request_params floats process_env f.params env'
      → batch_query floats process_env f.batch env ≡ batch_query floats process_env f.batch env'
      → eval_body floats process_env to_uppercase f.body env
        ≡ eval_body floats process_env to_uppercase f.body env'
      → eval_key floats process_env to_uppercase f.idempotency_key env
        ≡ eval_key floats process_env to_uppercase f.idempotency_key env'
      → apply_pipeline floats process_env (ops_of f.pipeline) env
        ≡ apply_pipeline floats process_env (ops_of f.pipeline) env'
      → run f env ≡ run f env'
  unfolding do_fetch
  do_fetch-same f env env' hw hq hs hb hk hp = λ i. hw i >>= λ where_to.
      hq i >>= λ query. hs i >>= λ batch. send-local f where_to query batch env env' hb hk hp i

  abbrev pub KindIsLocal : NodeKind → List String → Type 0
  KindIsLocal (Ir.fetch f) reads =
      (env env' : Env) → AgreeOn names reads env env' → run f env ≡ run f env'
  KindIsLocal _ reads = ⊥

  -- A request whose execution depends only on the given names and on the reads of its node.
  abbrev pub IsLocal : Node → Type 0
  IsLocal n = KindIsLocal n.kind n.reads

  -- The value, the error and the lines of a lowered request depend only on the variables that its node
  -- lists as its reads, and on the given names, if its expressions read only these by `$name` and their
  -- patterns have at most one argument at each constructor and none at `None`.
  pub lower_fetch-IsLocal : (s : FetchStmt) → TidyFetch names s → All IsLocal (lower_fetch s [])
  unfolding lower_fetch push batch_query fetch_reads
  lower_fetch-IsLocal (Ast.fetch method endpoint p params payload key ops bind sp)
        ((tp, ts), ((tb, tk), to)) =
      (
        (λ env env' a.
            let all =
              fetch-Agree names (Ast.fetch method endpoint p params payload key ops bind sp) env
                env' a in
            let in_key = Agree-right _ _ all in
            let in_body = Agree-right _ _ in_key in
            let in_params = Agree-right _ _ in_body in
            do_fetch-same _ env env'
              (request_path-local floats process_env names env env' p tp
                (Agree-right _ _ in_params))
              (params-local floats process_env names env env' params ts (Agree-left _ _ in_params))
              refl
              (body-local floats process_env to_uppercase names payload env env' tb
                (Agree-left _ _ in_body))
              (key-local floats process_env to_uppercase names key env env' tk
                (Agree-left _ _ in_key))
              (ops-local floats process_env names env env' ops to (Agree-left _ _ all))),
        tt,
      )
