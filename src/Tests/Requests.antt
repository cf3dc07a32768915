-- ===== src/Tests/Requests.antt =====
-- Requests at run time: a mock, a recording and the properties of their execution.
use tired.Prelude.{String, none, some, ◌≡◌, refl, [], ◌∷◌, All, concat, join}
use tired.Syntax.Ast.{
  fetch, path, literal_and, param_and, no_segs, no_fields, field_and, absent, no_ops, op_and, limit,
  FetchStmt,
}
use tired.Compiler.Lower.Nodes.{lower_fetch}
use tired.Runtime.Value.{Value, failure, new_err}
use tired.Runtime.Action.{pure}
use tired.Runtime.Recording.{off, request_key, sort_query}
use tired.Runtime.Mock.{lit, param, find_route, path_parts, capture, Engine}
use tired.Runtime.Fetch.{Shared, HttpEngine}
use tired.Runtime.Fetch.Local.{TidySegs}
use tired.Runtime.Fetch.Reads.{IsLocal, lower_fetch-IsLocal}
use tired.Runtime.Eval.Tidy.{Tidy, TidyOp, TidyOps}
use tired.Tests.Sample.{here, name, variable}
use tired.Tests.Runtime.{floats, no_variables}

-- Stand-ins for the capital letters and for the HTTP client.
abbrev same_letters : String → String
same_letters s = s

abbrev unreachable : HttpEngine
unreachable f p q b k = pure (failure (new_err "Timeout" (some 504) ""))

abbrev shared : Shared
shared = record { table = []; mocks = []; recording = off; endpoints = "Shop" ∷ [] }

key_test :
    request_key "GET" "Shop" "/items" (("b", "2") ∷ ("a", "1") ∷ []) ≡ "GET Shop/items?a=1&b=2"
unfolding request_key concat sort_query join
key_test = refl

-- GET /users/{id} -> id
abbrev users : Engine
users =
    record { method = "GET"; segments = lit "users" ∷ param "id" ∷ []; response = variable "id" }
    ∷ []

route_test :
    find_route floats no_variables same_letters "GET" (path_parts "/users//7/") users
    ≡ some (variable "id", ("id", Value.str "7") ∷ [])
unfolding find_route path_parts capture
route_test = refl

-- fetch GET Shop /items/{a}?page=b | limit a
abbrev request : FetchStmt
request =
    fetch "GET" (name "Shop") (path (literal_and "items" (param_and (variable "a") no_segs)) here)
      (field_and (name "page") (variable "b") no_fields) absent absent
      (op_and (limit (variable "a") here) no_ops) none here

lower_fetch-IsLocal_example :
    All (IsLocal floats no_variables same_letters unreachable shared [] []) (lower_fetch request [])
unfolding TidySegs Tidy TidyOp TidyOps
lower_fetch-IsLocal_example =
    lower_fetch-IsLocal floats no_variables same_letters unreachable shared [] [] request
      (((tt, tt), (tt, tt)), ((tt, tt), (tt, tt)))
