-- ===== src/Syntax/Pretty/Words.antt =====
-- crates/hale-syntax/src/pretty.rs: the texts with no expression in them, and brackets.
use Prim.Native.Char.{Char, code}
use Prim.Native.String
use tired.Prelude.{
  ℕ, zero, suc, String, List, [], ◌∷◌, Option, none, some, ltb, ◌==◌, if◌then◌else◌, concat, join,
  show_nat,
}
use tired.Syntax.Span.{Name}
use tired.Syntax.Ast.{
  ℤ, pos, negsuc, TypeExpr, TypeExprs, named, optional, array_of, generic, union, no_types,
  type_and, Pattern, Patterns, wildcard, binding, ctor, no_patterns, pattern_and, BinOp, add, sub,
  mul, eq_op, ne_op, lt_op, le_op, gt_op, ge_op, and_op, or_op, Bind, Expr, binary,
}

-- `i64::to_string`
unfoldable pub show_int : ℤ → String
show_int (pos n) = show_nat n
show_int (negsuc n) = concat ("-" ∷ show_nat (suc n) ∷ [])

-- `BinOp::symbol` of ast.rs
unfoldable pub symbol : BinOp → String
symbol add = "+"
symbol sub = "-"
symbol mul = "*"
symbol eq_op = "=="
symbol ne_op = "!="
symbol lt_op = "<"
symbol le_op = "<="
symbol gt_op = ">"
symbol ge_op = ">="
symbol and_op = "and"
symbol or_op = "or"

unfoldable pub prec : BinOp → ℕ
prec or_op = 1
prec and_op = 2
prec eq_op = 3
prec ne_op = 3
prec lt_op = 3
prec le_op = 3
prec gt_op = 3
prec ge_op = 3
prec add = 4
prec sub = 4
prec mul = 5

unfoldable pub pad : ℕ → String
pad zero = ""
pad (suc n) = concat ("  " ∷ pad n ∷ [])

-- One character of a literal, in `string_lit`.
unfoldable pub escape_char : Char → String
escape_char c =
    let n = code c in
    if n == 34
    then "\\\""
    else if n == 92
    then "\\\\"
    else if n == 10
    then "\\n"
    else if n == 9
    then "\\t"
    else if n == 123
    then "{{"
    else if n == 125
    then "}}"
    else String.◌∷◌ c String.[]

unfoldable pub escape : String → String
escape String.[] = ""
escape (String.◌∷◌ c s) = String.◌++◌ (escape_char c) (escape s)

unfoldable mutual
  pub type_expr : TypeExpr → String
  type_expr (named n) = n
  type_expr (optional t) = concat (type_expr t ∷ "?" ∷ [])
  type_expr (array_of t) = concat (type_expr t ∷ "[]" ∷ [])
  type_expr (generic n args) = concat (n ∷ "<" ∷ join ", " (type_texts args) ∷ ">" ∷ [])
  type_expr (union alts) = join " | " (type_texts alts)

  pub type_texts : TypeExprs → List String
  type_texts no_types = []
  type_texts (type_and t ts) = type_expr t ∷ type_texts ts

-- `format!("{}({})", name.node, args)`, or the name alone.
abbrev pub ctor_text : String → List String → String
ctor_text n [] = n
ctor_text n (a ∷ as') = concat (n ∷ "(" ∷ join ", " (a ∷ as') ∷ ")" ∷ [])

unfoldable mutual
  pub pattern_text : Pattern → String
  pattern_text (wildcard _) = "_"
  pattern_text (binding n) = n.node
  pattern_text (ctor name args _) = ctor_text name.node (pattern_texts args)

  pub pattern_texts : Patterns → List String
  pattern_texts no_patterns = []
  pattern_texts (pattern_and p ps) = pattern_text p ∷ pattern_texts ps

unfoldable pub binding_text : Bind → String
unfolding type_expr
binding_text b = elim b.ty [
  | some t ↦ concat (b.name.node ∷ ": " ∷ type_expr t ∷ [])
  | none ↦ b.name.node
]

abbrev pub bind_suffix : Option Bind → String
bind_suffix none = ""
bind_suffix (some b) = concat (" -> " ∷ binding_text b ∷ [])

-- `operand`, given the text of the expression.
unfoldable pub operand : Expr → String → ℕ → String
unfolding prec
operand (binary op _ _ _) text parent =
    if ltb (prec op) parent then concat ("(" ∷ text ∷ ")" ∷ []) else text
operand _ text parent = text

abbrev pub record_prefix : Option Name → String
record_prefix none = ""
record_prefix (some n) = concat (n.node ∷ " " ∷ [])

abbrev pub params_text : List String → String
params_text [] = ""
params_text (kv ∷ kvs) = concat (" params { " ∷ join ", " (kv ∷ kvs) ∷ " }" ∷ [])
