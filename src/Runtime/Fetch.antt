-- ===== src/Runtime/Fetch.antt =====
-- crates/hale-runtime/src/exec.rs: `do_fetch`. The outcome comes from a recording, from a mock or
-- from the HTTP client, which is an argument; that a run may also be recorded is left out.
mod Request
pub mod Local
pub mod Reads
unfoldable pub use tired.Runtime.Fetch.Request.*
use tired.Prelude.{
  ℕ, String, Option, none, some, Bool, true, false, if◌then◌else◌, List, [], ◌∷◌, ◌++◌, concat,
  show_nat, lookup, contains,
}
use tired.Syntax.Ast.{Expr, TypeExpr, PipelineOp, PipelineOps, no_ops, op_and}
use tired.Compiler.Ir.{FetchIr, segments}
use tired.Compiler.Types.{TypeTable}
use tired.Runtime.F64.{Floats}
use tired.Runtime.Value
use tired.Runtime.Value.{Value, Outcome, success, failure, no_values, ErrValue, err_value, new_err}
use tired.Runtime.Action
use tired.Runtime.Action.{Action, pure, raise, ◌>>=◌}
use tired.Runtime.Eval.{Env, eval}
use tired.Runtime.Pipeline.{apply_pipeline}
use tired.Runtime.Mock.{Engine, mock_lookup}
use tired.Runtime.Contracts.{validate_outcome, contract_failure}
use tired.Runtime.Recording.{Query, RecordMode, is_replay, recorded, request_key}

-- The parts of `Shared` that such a run uses.
pub record Shared : Type 0 where
  pub table : TypeTable
  pub mocks : List (String × Engine)
  pub recording : RecordMode
  pub endpoints : List String

-- `HttpEngine::request`, on the fetch, the path, the query, the body and the idempotency key.
abbrev pub HttpEngine : Type 0
HttpEngine = FetchIr → String → Query → Option Value → Option String → Action Outcome

unfoldable pub ops_of : List PipelineOp → PipelineOps
ops_of [] = no_ops
ops_of (op ∷ ops) = op_and op (ops_of ops)

-- The value of a binding declared as a `Result`, or as the plain value.
unfoldable pub wrap_value : Bool → Value → Value
wrap_value as_result v = if as_result then Value.ok v else v

show_status : Option ℕ → String
show_status none = "-"
show_status (some s) = show_nat s

request_failed : FetchIr → String → ErrValue → String
unfolding show_status
request_failed f path (err_value variant status _ _) = concat (
    "request to `"
    ∷ f.endpoint
    ∷ path
    ∷ "` failed: "
    ∷ variant
    ∷ " ("
    ∷ show_status status
    ∷ ") — annotate the binding as `Result<...>` to handle it"
    ∷ [])

module _ (floats : Floats) (process_env : String → Option String)
    (to_uppercase : String → String) where
  -- The end of `do_fetch`: the outcome as a value.
  unfoldable pub finish_fetch : FetchIr → String → Env → Outcome → Action Value
  unfolding request_failed
  finish_fetch f path env (success v) =
      apply_pipeline floats process_env (ops_of f.pipeline) env v >>= λ piped.
      pure (wrap_value f.as_result piped)
  finish_fetch f path env (failure e) =
      if f.as_result then pure (Value.err e) else raise (request_failed f path e)

  -- A violated contract is an `Err` of a `Result`, and an error otherwise.
  abbrev pub checked : Action Unit → Bool → Action Value → Action Value
  checked (Action.ok _, lines) as_result (r, more) = (r, lines ++ more)
  checked (Action.err message, lines) true next =
      (Action.ok (Value.err (contract_failure message)), lines)
  checked (Action.err message, lines) false next = (Action.err message, lines)

  unfoldable pub verified : FetchIr → TypeTable → Outcome → Action Value → Action Value
  verified f table outcome next = elim f.contract_ty [
    | none ↦ next
    | some ty ↦ checked (validate_outcome floats process_env outcome ty table) f.as_result next
  ]

  replayed : String → Option Outcome → Action Outcome
  replayed key none =
      raise
        (concat ("no recorded response for `" ∷ key ∷ "` — capture it with `--record` first" ∷ []))
  replayed key (some out) = pure out

  mocked : FetchIr → String → Option Engine → Action Outcome
  mocked f path none = pure (
      failure (
        new_err "NotFound" (some 404) (concat ("no mock installed for `" ∷ f.endpoint ∷ "`" ∷ []))))
  mocked f path (some engine) = mock_lookup floats process_env to_uppercase engine f.method path

  sent : List String → FetchIr → Action Outcome → Action Outcome
  sent endpoints f next =
      if contains f.endpoint endpoints
      then next
      else raise (concat ("unknown endpoint `" ∷ f.endpoint ∷ "`" ∷ []))

  -- The outcome: recorded, from a mock, or by the last argument from the HTTP client.
  unfoldable pub outcome_of :
      Shared → List String → FetchIr → String → Query → Action Outcome → Action Outcome
  unfolding replayed mocked sent
  outcome_of shared active f path query http =
      let key = request_key f.method f.endpoint path query in
      if is_replay shared.recording
      then replayed key (recorded key shared.recording)
      else if contains f.endpoint active
      then mocked f path (lookup f.endpoint shared.mocks)
      else sent shared.endpoints f http

  unfoldable pub eval_body : Option Expr → Env → Action (Option Value)
  eval_body none env = pure none
  eval_body (some e) env = eval floats process_env e env none >>= λ v. pure (some v)

  unfoldable pub eval_key : Option Expr → Env → Action (Option String)
  eval_key none env = pure none
  eval_key (some e) env = eval_text floats process_env e env >>= λ t. pure (some t)

  module _ (http : HttpEngine) (shared : Shared) (active : List String) where
    -- From the query on; a loop over nothing gives the empty batch.
    unfoldable pub send_request : FetchIr → Env → String → Query → Option Query → Action Value
    unfolding eval_body eval_key
    send_request f env path query none = pure (Value.array no_values)
    send_request f env path query (some batch) =
        let all = query ++ batch in
        eval_body f.body env >>= λ body. eval_key f.idempotency_key env >>= λ key.
        outcome_of shared active f path all (http f path all body key) >>= λ outcome.
        verified f shared.table outcome (finish_fetch f path env outcome)

    unfoldable pub do_fetch : FetchIr → Env → Action Value
    do_fetch f env = request_path floats process_env (segments f.path) env >>= λ path.
        request_params floats process_env f.params env >>= λ query.
        batch_query floats process_env f.batch env >>= λ batch. send_request f env path query batch
