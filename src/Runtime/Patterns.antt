-- ===== src/Runtime/Patterns.antt =====
-- crates/hale-runtime/src/eval.rs: `match_pattern`.
pub mod Bound
use tired.Prelude.{String, Option, none, some, str_eq, if◌then◌else◌, List, [], ◌∷◌}
use tired.Syntax.Ast.{Pattern, wildcard, binding, ctor, Patterns, no_patterns, pattern_and, pos}
use tired.Runtime.Value.{Value, ErrValue, err_value, no_payload, payload}

abbrev pub Bindings : Type 0
Bindings = List (String × Value)

-- `e.payload.or(e.status).unwrap_or(Null)`
unfoldable pub err_payload : ErrValue → Value
err_payload (err_value _ _ _ (payload v)) = v
err_payload (err_value _ (some s) _ no_payload) = Value.int (pos s)
err_payload (err_value _ none _ no_payload) = Value.null

unfoldable pub variant_of : ErrValue → String
variant_of (err_value v _ _ _) = v

ok_value : Value → Option Value
ok_value (Value.ok inner) = some inner
ok_value _ = none

some_value : Value → Option Value
some_value Value.null = none
some_value other = some other

error_value : Value → Option ErrValue
error_value (Value.err e) = some e
error_value _ = none

match_none : Value → Option Bindings
match_none Value.null = some []
match_none _ = none

abbrev on_some : {A : Type 0} → Option A → (A → Option Bindings) → Option Bindings
on_some none k = none
on_some (some a) k = k a

-- The match on the constructor's name; `first` matches the first argument, `in_err` the
-- arguments of `Err`.
match_ctor :
    String → (Value → Option Bindings) → (ErrValue → Option Bindings) → Value → Option Bindings
unfolding ok_value some_value error_value match_none
match_ctor name first in_err value =
    if str_eq name "Ok"
    then on_some (ok_value value) first
    else if str_eq name "Err"
    then on_some (error_value value) in_err
    else if str_eq name "Some"
    then on_some (some_value value) first
    else if str_eq name "None"
    then match_none value
    else none

unfoldable mutual
  unfolding match_ctor

  pub match_pattern : Pattern → Value → Option Bindings
  match_pattern (wildcard _) value = some []
  match_pattern (binding n) value = some ((n.node, value) ∷ [])
  match_pattern (ctor name args _) value =
      match_ctor name.node (match_first args) (match_err args) value

  -- `match_pattern(args.first()?, …)`
  match_first : Patterns → Value → Option Bindings
  match_first no_patterns value = none
  match_first (pattern_and p _) value = match_pattern p value

  match_err : Patterns → ErrValue → Option Bindings
  match_err no_patterns e = some []
  match_err (pattern_and p _) e = match_variant p e

  match_variant : Pattern → ErrValue → Option Bindings
  match_variant (wildcard _) e = some []
  match_variant (binding b) e = some ((b.node, Value.err e) ∷ [])
  match_variant (ctor v inner _) e =
      if str_eq v.node (variant_of e) then match_payload inner e else none

  match_payload : Patterns → ErrValue → Option Bindings
  match_payload no_patterns e = some []
  match_payload (pattern_and p _) e = match_pattern p (err_payload e)
