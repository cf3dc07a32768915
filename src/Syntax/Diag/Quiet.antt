-- ===== src/Syntax/Diag/Quiet.antt =====
-- Lists of diagnostics with warnings only, and with errors only.
use tired.Prelude.{true, false, ◌||◌, [], ◌∷◌, ◌++◌, ◌≡◌, refl, All, arith, Bool-cases, inl, inr}
use tired.Syntax.Diag.{Diagnostics, is_error, has_errors}

abbrev pub IsQuiet : Diagnostics → Type 0
IsQuiet ds = All (λ d. is_error d.severity ≡ false) ds

abbrev pub IsLoud : Diagnostics → Type 0
IsLoud ds = All (λ d. is_error d.severity ≡ true) ds

pub has_errors-IsQuiet : (ds : Diagnostics) → IsQuiet ds → has_errors ds ≡ false
unfolding has_errors
has_errors-IsQuiet [] h = refl
has_errors-IsQuiet (d ∷ ds) h = rw (h.0) (has_errors-IsQuiet ds h.1)

pub IsLoud-nil : (ds : Diagnostics) → IsLoud ds → has_errors ds ≡ false → ds ≡ []
unfolding has_errors
IsLoud-nil [] h e = refl
IsLoud-nil (d ∷ ds) h e = ground (arith, h.0)

pub has_errors-append :
    (xs ys : Diagnostics) → has_errors (xs ++ ys) ≡ has_errors xs || has_errors ys
unfolding has_errors
has_errors-append [] ys = refl
has_errors-append (x ∷ xs) ys = elim (Bool-cases (is_error x.severity)) [
  | inl e ↦ rw e refl
  | inr e ↦ rw e (has_errors-append xs ys)
]
