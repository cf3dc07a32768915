-- ===== src/Compiler/Types/Declared.antt =====
-- What declaring a record does to the types that are known.
use tired.Prelude.{
  Bool, true, false, String, List, [], ◌∷◌, Option, some, ◌≡◌, refl, str_eq, if◌then◌else◌,
  contains, lookup, Bool-cases, inl, inr,
}
use tired.Syntax.Ast.{TypeExpr, named, optional, array_of, generic, union, no_types, type_and}
use tired.Compiler.Types.{
  Ty, ErrDomain, unknown, record_named, array, opt, result, RecordField, TypeTable, declare, fields,
  is_there, is_record, semantic_names, resolve_builtin, resolve_named, err_domain, resolve,
}

-- As known as before or more: an unknown part may have become a record.
pub data Refines : Ty → Ty → Type 0 where
  same : (t : Ty) → Refines t t
  now_record : (n : String) → Refines unknown (record_named n)
  in_array : {t u : Ty} → Refines t u → Refines (array t) (array u)
  in_opt : {t u : Ty} → Refines t u → Refines (opt t) (opt u)
  in_result : {t u : Ty} (d : ErrDomain) → Refines t u → Refines (result t d) (result u d)

Refines-if :
    (c : Bool) (t a b : Ty) → Refines a b → Refines (if c then t else a) (if c then t else b)
Refines-if true t a b h = same t
Refines-if false t a b h = h

Refines-resolve_builtin :
    (n : String) (a b : Ty) → Refines a b → Refines (resolve_builtin n a) (resolve_builtin n b)
unfolding resolve_builtin
Refines-resolve_builtin n a b h = Refines-if (contains n ("Int" ∷ "Integer" ∷ [])) _ _ _ (
    Refines-if (contains n ("Float" ∷ "Number" ∷ [])) _ _ _ (
      Refines-if (contains n ("Bool" ∷ "Boolean" ∷ [])) _ _ _ (
        Refines-if (contains n ("String" ∷ "Str" ∷ [])) _ _ _ (
          Refines-if (contains n ("Null" ∷ [])) _ _ _ (
            Refines-if (contains n ("Duration" ∷ [])) _ _ _
              (Refines-if (contains n semantic_names) _ _ _ h))))))

is_there-if :
    {A : Type 0} (a : A) (c : Bool) (o : Option A)
    → is_there (if c then some a else o) ≡ (if c then true else is_there o)
is_there-if a true o = refl
is_there-if a false o = refl

module _ (name : String) (fs : List RecordField) (table : TypeTable) where
  is_record-declare :
      (n : String)
      → is_record n (declare name fs table) ≡ (if str_eq name n then true else is_record n table)
  unfolding is_record fields declare
  is_record-declare n = is_there-if fs (str_eq name n) (lookup n table)

  Refines-record :
      (n : String) (old declared : Bool)
      → Refines
          (if old then record_named n else unknown)
          (if (if declared then true else old) then record_named n else unknown)
  Refines-record n true true = same _
  Refines-record n true false = same _
  Refines-record n false true = now_record n
  Refines-record n false false = same _

  Refines-named :
      (n : String) → Refines (resolve_named table n) (resolve_named (declare name fs table) n)
  unfolding resolve_named
  Refines-named n =
      Refines-resolve_builtin n _ _
        (rw (is_record-declare n) (Refines-record n (is_record n table) (str_eq name n)))

  -- Declaring a record leaves every type expression with the type it had, but for parts that were
  -- unknown and are now records.
  pub declare-Refines :
      (te : TypeExpr) → Refines (resolve table te) (resolve (declare name fs table) te)
  unfolding resolve
  declare-Refines (named n) = Refines-named n
  declare-Refines (optional t) = in_opt (declare-Refines t)
  declare-Refines (array_of t) = in_array (declare-Refines t)
  declare-Refines (generic n no_types) = same unknown
  declare-Refines (generic n (type_and t no_types)) = elim (Bool-cases (str_eq n "Option")) [
    | inl e ↦ rw e (in_opt (declare-Refines t))
    | inr e ↦ rw e (same unknown)
  ]
  declare-Refines (generic n (type_and t (type_and e no_types))) =
      elim (Bool-cases (str_eq n "Result")) [
        | inl q ↦ rw q (in_result (err_domain e) (declare-Refines t))
        | inr q ↦ rw q (same unknown)
      ]
  declare-Refines (generic n (type_and t (type_and e (type_and u ts)))) = same unknown
  declare-Refines (union _) = same unknown
