-- ===== src/Tests/Sample.antt =====
-- A sample block: two equal requests, one that nothing reads, and a log of the first two.
use tired.Prelude.{ℕ, String, Option, none, some, show_nat}
use tired.Syntax.Span.{Span, Name}
use tired.Syntax.Ast.{
  ℤ, Expr, ident, null, binary, add, fetch, path, literal_and, no_segs, no_fields, absent, no_ops,
  Stmt, fetch_stmt, log_stmt, Block, block, stmt_and, no_stmts,
}

abbrev pub here : Span
here = record { start = 0; end = 0 }

abbrev pub name : String → Name
name s = record { node = s; span = here }

abbrev pub variable : String → Expr
variable x = ident (name x)

-- fetch GET Shop /… -> x
abbrev pub get : String → String → Stmt
get where_to x = fetch_stmt (
    fetch "GET" (name "Shop") (path (literal_and where_to no_segs) here) no_fields absent absent
      no_ops (some (record { name = name x; ty = none })) here)

abbrev pub a_plus_b : Expr
a_plus_b = binary add (variable "a") (variable "b") here

abbrev pub sample : Block
sample =
    block
      (stmt_and (get "one" "a") (
        stmt_and (get "one" "b")
          (stmt_and (get "two" "c") (stmt_and (log_stmt a_plus_b here) no_stmts))))
      here

-- A mutation, and a log behind it.
abbrev pub post_then_log : Block
post_then_log =
    block
      (stmt_and
        (fetch_stmt (
          fetch "POST" (name "Shop") (path (literal_and "one" no_segs) here) no_fields absent absent
            no_ops none here))
        (stmt_and (log_stmt (null here) here) no_stmts))
      here

-- A stand-in for the formatting of floats.
abbrev pub show_float : ℕ → String
show_float n = show_nat n

-- A stand-in for how integers are read: as if no text were one.
abbrev pub parse_int : String → Option ℤ
parse_int s = none
