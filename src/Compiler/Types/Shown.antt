-- ===== src/Compiler/Types/Shown.antt =====
-- The names of types and labels, shown and read.
use tired.Prelude.{
  true, false, String, List, [], ◌∷◌, some, ◌≡◌, ◌↔◌, refl, eq_iff, arith, contains,
}
use tired.Syntax.Ast.{
  TypeExpr, TypeExprs, named, optional, array_of, generic, union, no_types, type_and,
}
use tired.Compiler.Types.{
  Ty, ErrDomain, open_domain, variants, unknown, int, float, bool, string, null, duration, semantic,
  record_named, array, opt, result, Label, public, pii, secret, label_name, parse_label, TypeTable,
  is_record, semantic_names,
}

named_all : List String → TypeExprs
named_all [] = no_types
named_all (n ∷ ns) = type_and (named n) (named_all ns)

-- A type expression for a type; only what is unknown in it has none.
pub spell_domain : ErrDomain → TypeExpr
unfolding named_all
spell_domain open_domain = union no_types
spell_domain (variants ns) = union (named_all ns)

unfoldable pub spell : Ty → TypeExpr
unfolding spell_domain
spell unknown = named "?"
spell int = named "Integer"
spell float = named "Float"
spell bool = named "Boolean"
spell string = named "String"
spell null = named "Null"
spell duration = named "Duration"
spell (semantic n) = named n
spell (record_named n) = named n
spell (array t) = array_of (spell t)
spell (opt t) = optional (spell t)
spell (result t d) = generic "Result" (type_and (spell t) (type_and (spell_domain d) no_types))

abbrev pub IsClosed : ErrDomain → Type 0
IsClosed open_domain = ⊥
IsClosed (variants _) = Unit

abbrev pub primitive_names : List String
primitive_names =
    "Int" ∷ "Integer" ∷ "Float" ∷ "Number" ∷ "Bool" ∷ "Boolean" ∷ "String" ∷ "Str" ∷ "Null"
    ∷ "Duration" ∷ []

-- A type that a program can write down: no part is unknown, results name their errors, and a record is
-- declared under a name that is not built in.
abbrev pub IsWritten : TypeTable → Ty → Type 0
IsWritten table unknown = ⊥
IsWritten table (semantic n) =
    (contains n primitive_names ≡ false) × (contains n semantic_names ≡ true)
IsWritten table (record_named n) =
    (contains n primitive_names ≡ false)
    × (contains n semantic_names ≡ false)
    × (is_record n table ≡ true)
IsWritten table (array t) = IsWritten table t
IsWritten table (opt t) = IsWritten table t
IsWritten table (result t d) = IsWritten table t × IsClosed d
IsWritten table _ = Unit

-- A label is read from its own name and from no other text.
pub parse_label-label_name :
    (s : String) (l : Label) → (parse_label s ≡ some l) ↔ (s ≡ label_name l)
unfolding parse_label label_name
parse_label-label_name s public = (λ q. ground (arith, q, eq_iff s "Public"), λ q. rw q refl)
parse_label-label_name s pii = (λ q. ground (arith, q, eq_iff s "PII"), λ q. rw q refl)
parse_label-label_name s secret = (λ q. ground (arith, q, eq_iff s "Secret"), λ q. rw q refl)
