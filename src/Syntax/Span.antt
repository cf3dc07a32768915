-- ===== src/Syntax/Span.antt =====
-- crates/hale-syntax/src/span.rs: byte ranges and what carries one.
use tired.Prelude.{ℕ, ◌-◌, max, min, Bool, String, ◌==◌}

pub record Span : Type 0 where
  pub start : ℕ
  pub end : ℕ

unfoldable pub merge : Span → Span → Span
merge a b = record { start = min a.start b.start; end = max a.end b.end }

unfoldable pub len : Span → ℕ
len s = s.end - s.start

unfoldable pub is_empty : Span → Bool
is_empty s = s.start == s.end

-- `Spanned<T>`
pub record Spanned {ℓ} (A : Type ℓ) : Type ℓ where
  pub node : A
  pub span : Span

abbrev pub Name : Type 0
Name = Spanned String
