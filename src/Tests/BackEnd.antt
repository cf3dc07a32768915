-- ===== src/Tests/BackEnd.antt =====
-- The properties of lowering and of the back end at a small program.
use tired.Prelude.{String, List, [], ◌∷◌, none, some, ◌≡◌, ◌↔◌, false}
use tired.Syntax.Ast.{
  negsuc, Expr, int, duration, call, expr_and, no_exprs, str, lit, no_parts, implicit_field,
}
use tired.Syntax.Items.{
  Program, Budget, Setting, ServerDecl, endpoint_item, flow_item, stmt_item, server_item,
}
use tired.Syntax.Diag.{has_errors}
use tired.Compiler.Ir.Everywhere.{Everywhere}
use tired.Compiler.Lower.Settings.{IsPort, lower_server, lower_server-IsPort}
use tired.Compiler.Lower.Programs.{EachBody, lower_program}
use tired.Compiler.Lower.Programs.Annotated.{IsAnnotated, lower_program-IsAnnotated}
use tired.Compiler.Optimize.Driver.Sound.{IsScheduled}
use tired.Compiler.BackEnd.{optimized, back_end}
use tired.Compiler.BackEnd.Accepts.{AllMet, back_end-accepts, optimized-IsScheduled}
use tired.Tests.Sample.{here, name, variable, get, sample, show_float, parse_int}

abbrev setting : String → List Expr → Setting
setting k vs = record { key = name k; values = vs; span = here }

-- As if every method were in upper case already.
abbrev to_uppercase : String → String
to_uppercase s = s

abbrev text : String → Expr
text s = str (lit s no_parts) here

abbrev server : ServerDecl
server = record {
  name = name "api";
  settings = setting "base" (text "/v1" ∷ []) ∷ setting "port" (int (negsuc 4) here ∷ []) ∷ [];
  routes = [];
  span = here;
}

abbrev budget : Budget
budget = record { requests = some 3; parallel = none; hops = none; p99_ms = some 100; span = here }

-- endpoint Shop { latency: 20ms  batch: param("ids") key(.id) }
abbrev program : Program
program = record {
  items =
      endpoint_item (record {
        name = name "Shop";
        settings =
            setting "latency" (duration 20 here ∷ [])
            ∷ setting "batch" (
                call (variable "param") (expr_and (text "ids") no_exprs) here
                ∷ call (variable "key") (expr_and (implicit_field (name "id")) no_exprs) here
                ∷ [])
            ∷ [];
        span = here;
      })
      ∷ flow_item (record {
        name = name "load";
        params = [];
        ret = none;
        budget = some budget;
        body = sample;
        span = here;
      })
      ∷ server_item server
      ∷ stmt_item (get "one" "a")
      ∷ [];
}

lower_server-IsPort_example : IsPort (lower_server to_uppercase server).port
lower_server-IsPort_example = lower_server-IsPort to_uppercase server

lower_program-IsAnnotated_example :
    EachBody (IsAnnotated program.items) (lower_program to_uppercase program)
lower_program-IsAnnotated_example = lower_program-IsAnnotated to_uppercase program

optimized-IsScheduled_example :
    EachBody
      (Everywhere IsScheduled)
      (optimized show_float parse_int to_uppercase (lower_program to_uppercase program)).0
optimized-IsScheduled_example = optimized-IsScheduled show_float parse_int to_uppercase program

back_end-accepts_example :
    let l = (optimized show_float parse_int to_uppercase (lower_program to_uppercase program)).0 in
    ((back_end show_float parse_int to_uppercase program []).0 ≡ some l)
    ↔ ((has_errors [] ≡ false) × AllMet l)
back_end-accepts_example = back_end-accepts show_float parse_int to_uppercase program []
