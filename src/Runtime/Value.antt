-- ===== src/Runtime/Value.antt =====
-- crates/hale-runtime/src/value.rs: the values of a run and their text. An object lists its
-- members by ascending key, as a `BTreeMap` does.
use Prim.Native.String.{count, compare}
use text.Mathlib.Text.{is_lt}
use tired.Prelude.{
  ℕ, String, Option, none, some, Bool, true, false, not, ◌&&◌, ◌||◌, ◌==◌, ltb, leb, str_eq,
  if◌then◌else◌, List, [], ◌∷◌, length, concat, show_nat,
}
use tired.Syntax.Ast.{ℤ, pos}
use tired.Runtime.I64.{of_usize, int_eq, is_zero}
use tired.Runtime.F64.{Floats, float_eq}

mutual
  pub data Value : Type 0 where
    null : Value
    bool : Bool → Value
    int : ℤ → Value
    float : ℕ → Value
    str : String → Value
    duration : ℕ → Value
    array : Values → Value
    object : Members → Value
    ok : Value → Value
    err : ErrValue → Value

  pub data Values : Type 0 where
    no_values : Values
    value_and : Value → Values → Values

  pub data Members : Type 0 where
    no_members : Members
    member_and : String → Value → Members → Members

  -- The variant, the status, the message and the payload.
  pub data ErrValue : Type 0 where
    err_value : String → Option ℕ → String → Payload → ErrValue

  pub data Payload : Type 0 where
    no_payload : Payload
    payload : Value → Payload

-- `ErrValue::new` and `with_payload`
unfoldable pub new_err : String → Option ℕ → String → ErrValue
new_err variant status message = err_value variant status message no_payload

unfoldable pub with_payload : ErrValue → Value → ErrValue
with_payload (err_value variant status message _) v = err_value variant status message (payload v)

-- `Outcome`: what one request gives.
pub data Outcome : Type 0 where
  success : Value → Outcome
  failure : ErrValue → Outcome

-- The elements of a `Vec<Value>` as a list, and back.
unfoldable pub items : Values → List Value
items no_values = []
items (value_and v vs) = v ∷ items vs

unfoldable pub values : List Value → Values
values [] = no_values
values (v ∷ vs) = value_and v (values vs)

-- `BTreeMap::get` and `insert`
unfoldable pub get_member : String → Members → Option Value
get_member name no_members = none
get_member name (member_and k v o) = if str_eq k name then some v else get_member name o

unfoldable pub insert_member : String → Value → Members → Members
insert_member key v no_members = member_and key v no_members
insert_member key v (member_and k w o) =
    if str_eq k key
    then member_and key v o
    else if is_lt (compare key k)
    then member_and key v (member_and k w o)
    else member_and k w (insert_member key v o)

unfoldable pub status_variant : ℕ → String
status_variant s =
    if s == 304
    then "NotModified"
    else if s == 400
    then "BadRequest"
    else if s == 401
    then "Unauthorized"
    else if s == 403
    then "Forbidden"
    else if s == 404
    then "NotFound"
    else if s == 409
    then "Conflict"
    else if s == 429
    then "RateLimit"
    else if (s == 408) || (s == 504)
    then "Timeout"
    else if leb 500 s && leb s 599
    then "ServerError"
    else "HttpError"

-- `Value::from_status`; a status is a `u16`.
unfoldable pub from_status : ℕ → Value → Value
unfolding status_variant
from_status s body =
    if leb 200 s && ltb s 300
    then ok body
    else err (new_err (status_variant s) (some s) (concat ("HTTP " ∷ show_nat s ∷ [])))

unfoldable pub truthy : Value → Bool
truthy (bool b) = b
truthy null = false
truthy (int n) = not (is_zero n)
truthy (float f) = not (float_eq f 0)
truthy (str s) = not (str_eq s "")
truthy (array no_values) = false
truthy (array (value_and _ _)) = true
truthy (object no_members) = false
truthy (object (member_and _ _ _)) = true
truthy (ok _) = true
truthy (err _) = false
truthy (duration d) = not (d == 0)

or_null : Option Value → Value
or_null none = null
or_null (some v) = v

unfoldable pub get_field : String → Value → Value
unfolding or_null
get_field name (object o) = or_null (get_member name o)
get_field name (array a) = if str_eq name "length" then int (of_usize (length (items a))) else null
get_field name (str s) = if str_eq name "length" then int (of_usize (count s)) else null
get_field name _ = null

abbrev same_status : Option ℕ → Option ℕ → Bool
same_status none none = true
same_status (some a) (some b) = a == b
same_status _ _ = false

-- `derive(PartialEq)`: floats compare as `f64`, so a NaN differs from itself.
unfoldable mutual
  pub same : Value → Value → Bool
  same null null = true
  same (bool a) (bool b) = if a then b else not b
  same (int a) (int b) = int_eq a b
  same (float a) (float b) = float_eq a b
  same (str a) (str b) = str_eq a b
  same (duration a) (duration b) = a == b
  same (array a) (array b) = same_values a b
  same (object a) (object b) = same_members a b
  same (ok a) (ok b) = same a b
  same (err a) (err b) = same_err a b
  same _ _ = false

  same_values : Values → Values → Bool
  same_values no_values no_values = true
  same_values (value_and a xs) (value_and b ys) = same a b && same_values xs ys
  same_values _ _ = false

  same_members : Members → Members → Bool
  same_members no_members no_members = true
  same_members (member_and k a xs) (member_and j b ys) =
      str_eq k j && (same a b && same_members xs ys)
  same_members _ _ = false

  same_err : ErrValue → ErrValue → Bool
  same_err (err_value v s m p) (err_value w t n q) =
      str_eq v w && (same_status s t && (str_eq m n && same_payload p q))

  same_payload : Payload → Payload → Bool
  same_payload no_payload no_payload = true
  same_payload (payload a) (payload b) = same a b
  same_payload _ _ = false

module _ (floats : Floats) where
  unfoldable pub as_number : Value → Option ℕ
  as_number (int n) = some (Floats.of_int floats n)
  as_number (float f) = some f
  as_number (duration d) = some (Floats.of_int floats (pos d))
  as_number _ = none
