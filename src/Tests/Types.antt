-- ===== src/Tests/Types.antt =====
-- The properties of the checker's types at a small table of records.
use tired.Prelude.{[], ◌∷◌, some, ◌≡◌, ◌↔◌}
use tired.Syntax.Ast.{named, array_of}
use tired.Compiler.Types.{
  Ty, record_named, array, result, variants, TypeTable, declare, resolve, pii, parse_label,
  label_name,
}
use tired.Compiler.Types.Declared.{Refines, declare-Refines}
use tired.Compiler.Types.Shown.{parse_label-label_name}

abbrev table : TypeTable
table = declare "User" [] []

-- Result<User[], NotFound | Gone>
abbrev users : Ty
users = result (array (record_named "User")) (variants ("NotFound" ∷ "Gone" ∷ []))

declare-Refines_example :
    Refines (resolve [] (array_of (named "User"))) (resolve table (array_of (named "User")))
declare-Refines_example = declare-Refines "User" [] [] (array_of (named "User"))

parse_label-label_name_example : (parse_label "PII" ≡ some pii) ↔ ("PII" ≡ label_name pii)
parse_label-label_name_example = parse_label-label_name "PII" pii
