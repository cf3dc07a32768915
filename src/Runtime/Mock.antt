-- ===== src/Runtime/Mock.antt =====
-- crates/hale-runtime/src/mock.rs: the routes of a mock and the answer to a request.
-- `to_uppercase` is an argument, since it needs the tables of Unicode.
use Prim.Native.Char.{code}
use Prim.Native.String
use tired.Prelude.{
  ℕ, String, Option, none, some, ◌&&◌, ◌||◌, ◌==◌, str_eq, if◌then◌else◌, List, [], ◌∷◌, concat,
  map, length,
}
use tired.Syntax.Ast.{Expr, ident, call, Exprs, no_exprs, expr_and}
use tired.Syntax.Items
use tired.Compiler.Ir
use tired.Compiler.Ir.{segments}
use tired.Runtime.F64.{Floats}
use tired.Runtime.Value.{Value, Outcome, success, failure, ErrValue, new_err, with_payload}
use tired.Runtime.Action
use tired.Runtime.Action.{Action, Result, pure, ◌>>=◌}
use tired.Runtime.Eval.{Env, eval}

pub data Seg : Type 0 where
  lit param : String → Seg

pub record MockRoute : Type 0 where
  pub method : String
  pub segments : List Seg
  pub response : Expr

-- `MockEngine`
abbrev pub Engine : Type 0
Engine = List MockRoute

param_name : Expr → String
param_name (ident n) = n.node
param_name _ = "_"

mock_seg : Ir.PathSeg → Seg
unfolding param_name
mock_seg (Ir.literal l) = lit l
mock_seg (Ir.param e) = param (param_name e)

-- The non-empty pieces between the slashes; the first argument is the piece begun.
pieces : String → String → List String
pieces piece String.[] = if str_eq piece "" then [] else piece ∷ []
pieces piece (String.◌∷◌ c s) =
    let rest = pieces "" s in
    let more = pieces (String.◌++◌ piece (String.◌∷◌ c String.[])) s in
    if code c == 47 then (if str_eq piece "" then rest else piece ∷ rest) else more

unfoldable pub path_parts : String → List String
unfolding pieces
path_parts path = pieces "" path

-- The variables of a path that fits, the newest first; the lists have equal length.
unfoldable pub capture : List Seg → List String → Env → Option Env
capture [] parts env = some env
capture (s ∷ ss) [] env = some env
capture (lit l ∷ ss) (p ∷ ps) env =
    let rest = capture ss ps env in if str_eq l p then rest else none
capture (param name ∷ ss) (p ∷ ps) env = capture ss ps ((name, Value.str p) ∷ env)

-- `error_status`
unfoldable pub error_status : String → Option ℕ
error_status name =
    if str_eq name "NotModified"
    then some 304
    else if str_eq name "BadRequest"
    then some 400
    else if str_eq name "Unauthorized"
    then some 401
    else if str_eq name "Forbidden"
    then some 403
    else if str_eq name "NotFound"
    then some 404
    else if str_eq name "Timeout"
    then some 408
    else if str_eq name "Conflict"
    then some 409
    else if str_eq name "RateLimit" || str_eq name "TooManyRequests"
    then some 429
    else if str_eq name "ServerError"
    then some 500
    else none

module _ (floats : Floats) (process_env : String → Option String) where
  -- A payload that cannot be evaluated is left out.
  add_payload : ErrValue → Exprs → Env → Action Outcome
  add_payload e no_exprs env = pure (failure e)
  add_payload e (expr_and a _) env =
      let (r, lines) = eval floats process_env a env none in
      elim r [
        | Action.ok v ↦ (Action.ok (failure (with_payload e v)), lines)
        | Action.err _ ↦ (Action.ok (failure e), lines)
      ]

  named_error : String → Option ℕ → ErrValue
  named_error name status = new_err name status name

  -- `error_response`
  unfoldable pub error_response : Expr → Env → Option (Action Outcome)
  unfolding named_error add_payload
  error_response (ident n) env = elim (error_status n.node) [
    | none ↦ none
    | some s ↦ some (pure (failure (named_error n.node (some s))))
  ]
  error_response (call (ident n) args _) env = elim (error_status n.node) [
    | none ↦ none
    | some s ↦ some (add_payload (named_error n.node (some s)) args env)
  ]
  error_response _ env = none

  evaluated : Action Value → Action Outcome
  evaluated (Action.ok v, lines) = (Action.ok (success v), lines)
  evaluated (Action.err e, lines) = (Action.ok (failure (new_err "MockError" none e)), lines)

  unfoldable pub respond : Expr → Env → Action Outcome
  unfolding evaluated
  respond response env = elim (error_response response env) [
    | none ↦ evaluated (eval floats process_env response env none)
    | some out ↦ out
  ]

  module _ (to_uppercase : String → String) where
    mock_route : Items.MockRoute → MockRoute
    unfolding mock_seg
    mock_route r = record {
      method = to_uppercase r.method.node;
      segments = map mock_seg (segments r.path);
      response = r.response;
    }

    unfoldable pub from_decl : Items.MockDecl → Engine
    unfolding mock_route
    from_decl d = map mock_route d.routes

    -- The first route of the method whose segments fit the parts.
    unfoldable pub find_route : String → List String → Engine → Option (Expr × Env)
    find_route method parts [] = none
    find_route method parts (r ∷ rs) =
        let rest = find_route method parts rs in
        if str_eq r.method method && (length r.segments == length parts)
        then (elim (capture r.segments parts []) [
          | none ↦ rest
          | some env ↦ some (r.response, env)
        ])
        else rest

    answer : String → String → Option (Expr × Env) → Action Outcome
    answer method path none = pure (
        failure (
          new_err "NotFound" (some 404) (concat ("no mock route for " ∷ method ∷ " " ∷ path ∷ []))))
    answer method path (some (response, env)) = respond response env

    -- `MockEngine::lookup`
    unfoldable pub mock_lookup : Engine → String → String → Action Outcome
    unfolding answer
    mock_lookup engine method path =
        let upper = to_uppercase method in
        answer upper path (find_route upper (path_parts path) engine)
