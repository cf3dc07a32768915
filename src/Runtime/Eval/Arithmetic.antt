-- ===== src/Runtime/Eval/Arithmetic.antt =====
-- `eval` of crates/hale-runtime/src/eval.rs on arithmetic operators, against the integers.
use tired.Prelude.{String, Option}
use tired.Syntax.Span.{Span}
use tired.Syntax.Ast.{ℤ, Expr, binary, unary, add, sub, neg}
use tired.Runtime.F64.{Floats}
use tired.Runtime.I64.Exact.{◌+ℤ◌, negℤ}
use tired.Runtime.Value.{Value}
use tired.Runtime.Action.{Action, pure}
use tired.Runtime.Operators
use tired.Runtime.Eval.{Env, Elem}

pub data Arithmetic : Type 0 where
  plus : Arithmetic
  minus : Arithmetic
  opposite : Arithmetic

abbrev pub written : Arithmetic → Expr → Expr → Span → Expr
written plus l r s = binary add l r s
written minus l r s = binary sub l r s
written opposite l r s = unary neg r s

-- The operation on the integers, without a range.
abbrev pub whole : Arithmetic → ℤ → ℤ → ℤ
whole plus a b = a +ℤ b
whole minus a b = a +ℤ negℤ b
whole opposite a b = negℤ b

module _ (floats : Floats) (process_env : String → Option String) (env : Env) (elem : Elem) where
  abbrev number : ℤ → Action Value
  number n = pure (Value.int n)
