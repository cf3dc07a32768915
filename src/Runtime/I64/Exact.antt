-- ===== src/Runtime/I64/Exact.antt =====
-- The wrap-around arithmetic of crates/hale-runtime/src/eval.rs against that of the integers.
use tired.Prelude.{ℕ, zero, suc, ◌+◌, ◌-◌, ◌^◌, ◌<◌, ltb, if◌then◌else◌, ◌≡◌, arith}
use tired.Syntax.Ast.{ℤ, pos, negsuc}
use tired.Runtime.I64.{to_bits, of_bits, wrapping_add, wrapping_sub, wrapping_neg}

-- The range of `i64`.
abbrev pub Fits : ℤ → Type 0
Fits (pos n) = n < 2 ^ 63
Fits (negsuc n) = n < 2 ^ 63

-- `m - n`
abbrev pub difference : ℕ → ℕ → ℤ
difference m n = if ltb m n then negsuc (n - m - 1) else pos (m - n)

infixl 60 ◌+ℤ◌
abbrev pub ◌+ℤ◌ : ℤ → ℤ → ℤ
pos a +ℤ pos b = pos (a + b)
pos a +ℤ negsuc b = difference a (b + 1)
negsuc a +ℤ pos b = difference b (a + 1)
negsuc a +ℤ negsuc b = negsuc (a + b + 1)

abbrev pub negℤ : ℤ → ℤ
negℤ (pos zero) = pos 0
negℤ (pos (suc n)) = negsuc n
negℤ (negsuc n) = pos (suc n)

pub add-exact : (a b : ℤ) → Fits a → Fits b → Fits (a +ℤ b) → wrapping_add a b ≡ a +ℤ b
unfolding wrapping_add to_bits of_bits
add-exact (pos a) (pos b) ha hb h = grind arith
add-exact (pos a) (negsuc b) ha hb h = grind arith
add-exact (negsuc a) (pos b) ha hb h = grind arith
add-exact (negsuc a) (negsuc b) ha hb h = grind arith

pub sub-exact : (a b : ℤ) → Fits a → Fits b → Fits (a +ℤ negℤ b) → wrapping_sub a b ≡ a +ℤ negℤ b
unfolding wrapping_sub to_bits of_bits
sub-exact (pos a) (pos zero) ha hb h = grind arith
sub-exact (pos a) (pos (suc b)) ha hb h = grind arith
sub-exact (pos a) (negsuc b) ha hb h = grind arith
sub-exact (negsuc a) (pos zero) ha hb h = grind arith
sub-exact (negsuc a) (pos (suc b)) ha hb h = grind arith
sub-exact (negsuc a) (negsuc b) ha hb h = grind arith

pub neg-exact : (a : ℤ) → Fits a → Fits (negℤ a) → wrapping_neg a ≡ negℤ a
unfolding wrapping_neg to_bits of_bits
neg-exact (pos zero) ha h = grind arith
neg-exact (pos (suc a)) ha h = grind arith
neg-exact (negsuc a) ha h = grind arith
