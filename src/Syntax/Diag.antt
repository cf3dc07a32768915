-- ===== src/Syntax/Diag.antt =====
-- crates/hale-syntax/src/diag.rs: the diagnostics that the compiler's stages collect.
pub mod Quiet
use tired.Prelude.{
  ℕ, Bool, true, false, String, Option, none, some, List, [], ◌∷◌, ◌++◌, any, keep, length,
}
use tired.Syntax.Span.{Span}

pub data Severity : Type 0 where
  error_level warning_level : Severity

unfoldable pub label : Severity → String
label error_level = "error"
label warning_level = "warning"

-- `d.severity == Severity::Error`
abbrev pub is_error : Severity → Bool
is_error error_level = true
is_error warning_level = false

pub record Diagnostic : Type 0 where
  pub severity : Severity
  pub message : String
  pub span : Span
  pub labels : List (Span × String)
  pub help : Option String
  pub note : Option String

unfoldable pub error : Span → String → Diagnostic
error s m = record {
  severity = error_level;
  message = m;
  span = s;
  labels = [];
  help = none;
  note = none;
}

unfoldable pub warning : Span → String → Diagnostic
warning s m = record {
  severity = warning_level;
  message = m;
  span = s;
  labels = [];
  help = none;
  note = none;
}

unfoldable pub with_help : Diagnostic → String → Diagnostic
with_help d h = record d { help = some h }

unfoldable pub with_note : Diagnostic → String → Diagnostic
with_note d n = record d { note = some n }

unfoldable pub with_label : Diagnostic → Span → String → Diagnostic
with_label d s l = record d { labels = d.labels ++ (s, l) ∷ [] }

abbrev pub Diagnostics : Type 0
Diagnostics = List Diagnostic

unfoldable pub push : Diagnostics → Diagnostic → Diagnostics
push ds d = ds ++ d ∷ []

unfoldable pub extend : Diagnostics → Diagnostics → Diagnostics
extend ds other = ds ++ other

unfoldable pub has_errors : Diagnostics → Bool
has_errors ds = any (λ d. is_error d.severity) ds

unfoldable pub error_count : Diagnostics → ℕ
error_count ds = length (keep (λ d. is_error d.severity) ds)
