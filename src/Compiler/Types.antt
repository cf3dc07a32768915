-- ===== src/Compiler/Types.antt =====
-- crates/hale-compiler/src/types.rs: the types that the checker knows, the labels of information flow,
-- and the table of declared records. `Ty` is the source's `Type`.
pub mod Declared
pub mod Shown
use tired.Prelude.{
  ℕ, ◌≤◌, Bool, true, false, String, List, [], ◌∷◌, Option, none, some, ◌≡◌, ◌↔◌, refl, map, str_eq,
  if◌then◌else◌, concat, join, contains, lookup,
}
use tired.Syntax.Ast.{
  TypeExpr, TypeExprs, named, optional, array_of, generic, union, no_types, type_and,
}
use tired.Syntax.Items.{FieldDecl}

pub data ErrDomain : Type 0 where
  open_domain : ErrDomain
  variants : List String → ErrDomain

pub data Ty : Type 0 where
  unknown int float bool string null duration : Ty
  semantic record_named : String → Ty
  array opt : Ty → Ty
  result : Ty → ErrDomain → Ty

result_text : String → ErrDomain → String
result_text t open_domain = concat ("Result<" ∷ t ∷ ", ?>" ∷ [])
result_text t (variants v) = concat ("Result<" ∷ t ∷ ", " ∷ join " | " v ∷ ">" ∷ [])

unfoldable pub display : Ty → String
unfolding result_text
display unknown = "?"
display int = "Integer"
display float = "Float"
display bool = "Boolean"
display string = "String"
display null = "Null"
display duration = "Duration"
display (semantic n) = n
display (record_named n) = n
display (array t) = concat (display t ∷ "[]" ∷ [])
display (opt t) = concat (display t ∷ "?" ∷ [])
display (result t d) = result_text (display t) d

unfoldable pub is_unknown : Ty → Bool
is_unknown unknown = true
is_unknown _ = false

unfoldable pub is_result : Ty → Bool
is_result (result _ _) = true
is_result _ = false

unfoldable pub is_secret : Ty → Bool
is_secret (semantic n) = str_eq n "Secret"
is_secret _ = false

pub data Label : Type 0 where
  public pii secret : Label

unfoldable pub intrinsic_label : Ty → Label
intrinsic_label (semantic n) =
    if str_eq n "Secret" then secret else if str_eq n "PII" then pii else public
intrinsic_label _ = public

unfoldable pub element : Ty → Option Ty
element (array t) = some t
element (opt t) = element t
element _ = none

-- `Label::name` and `Label::parse`
unfoldable pub label_name : Label → String
label_name public = "Public"
label_name pii = "PII"
label_name secret = "Secret"

unfoldable pub parse_label : String → Option Label
parse_label name =
    if str_eq name "Public"
    then some public
    else if str_eq name "PII"
    then some pii
    else if str_eq name "Secret"
    then some secret
    else none

pub record RecordField : Type 0 where
  pub name : String
  pub ty : Ty
  pub decl : FieldDecl

-- `records`, with the latest declaration first.
abbrev pub TypeTable : Type 0
TypeTable = List (String × List RecordField)

unfoldable pub declare : String → List RecordField → TypeTable → TypeTable
declare name fs table = (name, fs) ∷ table

unfoldable pub fields : String → TypeTable → Option (List RecordField)
fields name table = lookup name table

abbrev pub is_there {ℓ} : {A : Type ℓ} → Option A → Bool
is_there none = false
is_there (some _) = true

unfoldable pub is_record : String → TypeTable → Bool
unfolding fields
is_record name table = is_there (fields name table)

find_field : String → List RecordField → Option RecordField
find_field field [] = none
find_field field (f ∷ fs) = if str_eq f.name field then some f else find_field field fs

unfoldable pub field : String → String → TypeTable → Option RecordField
unfolding fields find_field
field name wanted table = elim (fields name table) [ none ↦ none | some fs ↦ find_field wanted fs ]

unfoldable pub field_names : String → TypeTable → List String
unfolding fields
field_names name table = elim (fields name table) [
  | none ↦ []
  | some fs ↦ map (λ (f : RecordField). f.name) fs
]

abbrev pub semantic_names : List String
semantic_names =
    "Url" ∷ "Email" ∷ "UUID" ∷ "Uuid" ∷ "DateTime" ∷ "Date" ∷ "Status" ∷ "Time" ∷ "Secret" ∷ "PII"
    ∷ []

-- The arms of `resolve_named` before those for records.
unfoldable pub resolve_builtin : String → Ty → Ty
resolve_builtin n other =
    if contains n ("Int" ∷ "Integer" ∷ [])
    then int
    else if contains n ("Float" ∷ "Number" ∷ [])
    then float
    else if contains n ("Bool" ∷ "Boolean" ∷ [])
    then bool
    else if contains n ("String" ∷ "Str" ∷ [])
    then string
    else if contains n ("Null" ∷ [])
    then null
    else if contains n ("Duration" ∷ [])
    then duration
    else if contains n semantic_names
    then semantic n
    else other

unfoldable pub resolve_named : TypeTable → String → Ty
unfolding resolve_builtin is_record
resolve_named table n = resolve_builtin n (if is_record n table then record_named n else unknown)

names_of : TypeExprs → List String
names_of no_types = []
names_of (type_and (named n) ts) = n ∷ names_of ts
names_of (type_and _ ts) = names_of ts

unfoldable pub err_domain : TypeExpr → ErrDomain
unfolding names_of
err_domain (union alts) = variants (names_of alts)
err_domain _ = open_domain

unfoldable pub resolve : TypeTable → TypeExpr → Ty
unfolding resolve_named err_domain
resolve table (named n) = resolve_named table n
resolve table (optional t) = opt (resolve table t)
resolve table (array_of t) = array (resolve table t)
resolve table (generic n (type_and t no_types)) =
    let r = resolve table t in if str_eq n "Option" then opt r else unknown
resolve table (generic n (type_and t (type_and e no_types))) =
    let r = resolve table t in if str_eq n "Result" then result r (err_domain e) else unknown
resolve table (generic n _) = unknown
resolve table (union _) = unknown
