-- ===== src/Runtime/Patterns/Bound.antt =====
-- The names that a pattern binds: those that `match_pattern` of
-- crates/hale-runtime/src/eval.rs gives a value, against `pattern_binds` of
-- crates/hale-compiler/src/lower.rs.
use tired.Prelude.{
  String, Option, none, some, true, false, ◌≡◌, List, [], contains, map, str_eq, if◌then◌else◌,
  arith, sym, subst, if_cases,
}
use tired.Syntax.Ast.{Pattern, wildcard, binding, ctor, Patterns, no_patterns, pattern_and}
use tired.Compiler.Lower.FreeVars.{pattern_binds, collect_pattern_binds}
use tired.Runtime.Value.{Value, ErrValue}
use tired.Runtime.Patterns.{
  Bindings, match_pattern, match_ctor, match_variant, on_some, ok_value, some_value, error_value,
  match_none, variant_of, err_payload,
}

-- A constructor has at most one argument, and `None` has none.
unfoldable mutual
  pub IsPlain : Pattern → Type 0
  IsPlain (wildcard _) = Unit
  IsPlain (binding _) = Unit
  IsPlain (ctor name args _) = AtMostOne name.node args

  AtMostOne : String → Patterns → Type 0
  AtMostOne name no_patterns = Unit
  AtMostOne name (pattern_and p no_patterns) = (str_eq name "None" ≡ false) × IsPlain p
  AtMostOne name (pattern_and _ (pattern_and _ _)) = ⊥

abbrev pub bound_names : Bindings → List String
bound_names = map λ b. b.0

-- A match that succeeds binds each of `names`.
abbrev pub BindsAll : List String → Option Bindings → Type 0
BindsAll names none = Unit
BindsAll names (some bs) =
    (x : String) → contains x names ≡ true → contains x (bound_names bs) ≡ true

BindsAll-nil : (o : Option Bindings) → BindsAll [] o
BindsAll-nil none = tt
BindsAll-nil (some bs) = λ x h. ground arith

on_some-BindsAll :
    {A : Type 0} (names : List String) (o : Option A) (k : A → Option Bindings)
    → ((a : A) → BindsAll names (k a))
    → BindsAll names (on_some o k)
on_some-BindsAll names none k h = tt
on_some-BindsAll names (some a) k h = h a

match_ctor-BindsAll :
    (name : String) (names : List String) (first : Value → Option Bindings)
    (in_err : ErrValue → Option Bindings) (v : Value)
    → str_eq name "None" ≡ false
    → ((w : Value) → BindsAll names (first w))
    → ((e : ErrValue) → BindsAll names (in_err e))
    → BindsAll names (match_ctor name first in_err v)
unfolding match_ctor
match_ctor-BindsAll name names first in_err v n f e =
    let Q = BindsAll names in
    let last = subst (λ b. Q (if b then match_none v else none)) (sym n) tt in
    let in_some = on_some-BindsAll names (some_value v) first f in
    let in_error = on_some-BindsAll names (error_value v) in_err e in
    let in_ok = on_some-BindsAll names (ok_value v) first f in
    if_cases Q (str_eq name "Ok") (λ _. in_ok)
      (λ _.
        if_cases Q (str_eq name "Err") (λ _. in_error)
          (λ _. if_cases Q (str_eq name "Some") (λ _. in_some) (λ _. last)))

mutual
  unfolding pattern_binds collect_pattern_binds match_pattern IsPlain

  pattern-BindsAll :
      (p : Pattern) (v : Value) → IsPlain p → BindsAll (pattern_binds p) (match_pattern p v)
  pattern-BindsAll (wildcard _) v h = λ x hx. ground arith
  pattern-BindsAll (binding n) v h = λ x hx. hx
  pattern-BindsAll (ctor name no_patterns _) v h = BindsAll-nil _
  pattern-BindsAll (ctor name (pattern_and p no_patterns) _) v (n, h) =
      match_ctor-BindsAll name.node (pattern_binds p) _ _ v n (λ w. pattern-BindsAll p w h)
        (λ e. variant-BindsAll p e h)
  pattern-BindsAll (ctor name (pattern_and p (pattern_and _ _)) _) v h = absurd h

  variant-BindsAll :
      (p : Pattern) (e : ErrValue) → IsPlain p → BindsAll (pattern_binds p) (match_variant p e)
  variant-BindsAll (wildcard _) e h = λ x hx. ground arith
  variant-BindsAll (binding n) e h = λ x hx. hx
  variant-BindsAll (ctor v no_patterns _) e h = BindsAll-nil _
  variant-BindsAll (ctor v (pattern_and p no_patterns) _) e (n, h) =
      if_cases (BindsAll (pattern_binds p)) (str_eq v.node (variant_of e))
        (λ _. pattern-BindsAll p (err_payload e) h) (λ _. tt)
  variant-BindsAll (ctor v (pattern_and p (pattern_and _ _)) _) e h = absurd h

-- A match that succeeds gives a value to every name that the compiler takes the pattern to bind, if
-- each constructor of the pattern has at most one argument, and `None` has none.
pub match_pattern-BindsAll :
    (p : Pattern) (v : Value) → IsPlain p → BindsAll (pattern_binds p) (match_pattern p v)
match_pattern-BindsAll p v h = pattern-BindsAll p v h
