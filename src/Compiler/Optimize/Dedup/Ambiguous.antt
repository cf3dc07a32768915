-- ===== src/Compiler/Optimize/Dedup/Ambiguous.antt =====
-- The signature prints expressions, and the printer drops the brackets of a right operand, so
-- requests with different inputs can share a signature.
use text.Mathlib.TextLemmas.{append_assoc, append-nil}
use tired.Prelude.{ℕ, String, List, [], ◌∷◌, ◌≡◌, concat}
use tired.Syntax.Span.{Span}
use tired.Syntax.Ast.{Expr, binary, sub}
use tired.Syntax.Pretty.{expr_text, expr_indented, operand, symbol}
use tired.Compiler.Ir.{FetchIr}
use tired.Compiler.Optimize.Dedup.{fetch_sig}

-- x - (y - z)
abbrev pub grouped_right : Expr → Expr → Expr → Span → Expr
grouped_right x y z s = binary sub x (binary sub y z s) s

-- (x - y) - z
abbrev pub grouped_left : Expr → Expr → Expr → Span → Expr
grouped_left x y z s = binary sub (binary sub x y s) z s

text_regroup :
    (a b c : String)
    → concat (a ∷ " " ∷ "-" ∷ " " ∷ concat (b ∷ " " ∷ "-" ∷ " " ∷ c ∷ []) ∷ [])
      ≡ concat (concat (a ∷ " " ∷ "-" ∷ " " ∷ b ∷ []) ∷ " " ∷ "-" ∷ " " ∷ c ∷ [])
unfolding concat
text_regroup a b c = simp (append_assoc, append-nil)

expr_text-regroup :
    (show_float : ℕ → String) (x y z : Expr) (s : Span)
    → expr_text show_float (grouped_right x y z s) ≡ expr_text show_float (grouped_left x y z s)
unfolding expr_text expr_indented operand symbol
expr_text-regroup show_float x y z s =
    text_regroup (operand x (expr_indented show_float x 0) 4)
      (operand y (expr_indented show_float y 0) 4) (operand z (expr_indented show_float z 0) 4)

-- A request with the query parameter x - (y - z) has the signature of one with (x - y) - z, for
-- all expressions x, y and z: the signature does not tell the two requests apart.
pub fetch_sig-regroup :
    (show_float : ℕ → String) (f : FetchIr) (k : String) (x y z : Expr) (s : Span)
    (reads : List String) (deps : List ℕ)
    → fetch_sig show_float (record f { params = (k, grouped_right x y z s) ∷ [] }) reads deps
      ≡ fetch_sig show_float (record f { params = (k, grouped_left x y z s) ∷ [] }) reads deps
unfolding fetch_sig
fetch_sig-regroup show_float f k x y z s reads deps = rw (expr_text-regroup show_float x y z s)
