-- ===== src/Runtime/I64.antt =====
-- The arithmetic on `i64` in crates/hale-runtime/src/eval.rs, as the release profile compiles it:
-- modulo 2 ^ 64, in two's complement.
pub mod Exact
use tired.Prelude.{ℕ, ◌+◌, ◌-◌, ◌*◌, ◌%◌, ◌^◌, Bool, false, ◌==◌, ltb, if◌then◌else◌}
use tired.Syntax.Ast.{ℤ, pos, negsuc}

unfoldable pub to_bits : ℤ → ℕ
to_bits (pos n) = n % 2 ^ 64
to_bits (negsuc n) = 2 ^ 64 - 1 - n % 2 ^ 64

unfoldable pub of_bits : ℕ → ℤ
of_bits b = if ltb b (2 ^ 63) then pos b else negsuc (2 ^ 64 - 1 - b)

unfoldable pub wrapping_add : ℤ → ℤ → ℤ
wrapping_add a b = of_bits ((to_bits a + to_bits b) % 2 ^ 64)

unfoldable pub wrapping_sub : ℤ → ℤ → ℤ
wrapping_sub a b = of_bits ((to_bits a + (2 ^ 64 - to_bits b)) % 2 ^ 64)

unfoldable pub wrapping_mul : ℤ → ℤ → ℤ
wrapping_mul a b = of_bits (to_bits a * to_bits b % 2 ^ 64)

unfoldable pub wrapping_neg : ℤ → ℤ
wrapping_neg a = of_bits ((2 ^ 64 - to_bits a) % 2 ^ 64)

-- `n as i64` of a `usize`.
unfoldable pub of_usize : ℕ → ℤ
of_usize n = of_bits (n % 2 ^ 64)

-- `n.max(0) as usize`
abbrev pub at_least_0 : ℤ → ℕ
at_least_0 (pos n) = n
at_least_0 (negsuc _) = 0

abbrev pub int_eq : ℤ → ℤ → Bool
int_eq (pos a) (pos b) = a == b
int_eq (negsuc a) (negsuc b) = a == b
int_eq (pos _) (negsuc _) = false
int_eq (negsuc _) (pos _) = false

abbrev pub is_zero : ℤ → Bool
is_zero (pos n) = n == 0
is_zero (negsuc _) = false
