-- ===== src/Runtime/Json.antt =====
-- crates/hale-runtime/src/value.rs: the text of a value, in structures and in a `log`.
use Prim.Native.Char.{Char, code}
use Prim.Native.String
use tired.Prelude.{String, ◌==◌, if◌then◌else◌, [], ◌∷◌, concat, show_nat}
use tired.Syntax.Pretty.{show_int}
use tired.Runtime.F64.{Floats}
use tired.Runtime.Value.{
  Value, Values, Members, null, bool, int, float, str, duration, array, object, ok, err, no_values,
  value_and, no_members, member_and, err_value,
}

json_char : Char → String
json_char c =
    let n = code c in
    if n == 34
    then "\\\""
    else if n == 92
    then "\\\\"
    else if n == 10
    then "\\n"
    else if n == 9
    then "\\t"
    else if n == 13
    then "\\r"
    else String.◌∷◌ c String.[]

json_chars : String → String
unfolding json_char
json_chars String.[] = ""
json_chars (String.◌∷◌ c s) = String.◌++◌ (json_char c) (json_chars s)

unfoldable pub write_json_string : String → String
unfolding json_chars
write_json_string s = concat ("\"" ∷ json_chars s ∷ "\"" ∷ [])

module _ (floats : Floats) where
  -- `write_json`, which appends to a buffer, as the text it appends.
  unfoldable mutual
    pub to_json : Value → String
    to_json null = "null"
    to_json (bool b) = if b then "true" else "false"
    to_json (int n) = show_int n
    to_json (float f) = Floats.show floats f
    to_json (duration d) = concat (show_nat d ∷ "ms" ∷ [])
    to_json (str s) = write_json_string s
    to_json (array no_values) = "[]"
    to_json (array (value_and v vs)) = concat ("[" ∷ to_json v ∷ more_json vs ∷ "]" ∷ [])
    to_json (object no_members) = "{}"
    to_json (object (member_and k v o)) =
        concat ("{" ∷ write_json_string k ∷ ":" ∷ to_json v ∷ more_members o ∷ "}" ∷ [])
    to_json (ok v) = concat ("Ok(" ∷ to_json v ∷ ")" ∷ [])
    to_json (err (err_value variant _ _ _)) = concat ("Err(" ∷ variant ∷ ")" ∷ [])

    more_json : Values → String
    more_json no_values = ""
    more_json (value_and v vs) = concat ("," ∷ to_json v ∷ more_json vs ∷ [])

    more_members : Members → String
    more_members no_members = ""
    more_members (member_and k v o) =
        concat ("," ∷ write_json_string k ∷ ":" ∷ to_json v ∷ more_members o ∷ [])

  unfoldable pub display : Value → String
  display (str s) = s
  display v = to_json v
