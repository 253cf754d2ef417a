-- ===== src/Base/Integers.antt =====
-- Go's signed integers, and their two's complement words. `half` is 2 ^ (w - 1) for w bits.
use Prim.Native.Nat.{ℕ, ◌-◌, ◌*◌, ◌%◌, ◌<◌}
use mathlib.Core.Path.{◌≡◌}
use native.Mathlib.Omega.{arith}
use native.Mathlib.Nat.{mod-eq_of_lt}
use mathlib.Core.Bool.{Bool, true, false}
use http_stack_lens.Base.Tests.{ltb, ◌==◌, if◌then◌else◌}

-- `negsuc n` is -(n + 1).
pub data ℤ : Type 0 where
  pos : ℕ → ℤ
  negsuc : ℕ → ℤ

-- The bit pattern of a signed integer that is stored in a word.
unfoldable pub to_word : ℕ → ℤ → ℕ
to_word half (pos n) = n % (2 * half)
to_word half (negsuc n) = 2 * half - 1 - n % (2 * half)

-- The integer that a bit pattern stands for.
unfoldable pub of_word : ℕ → ℕ → ℤ
of_word half v = if ltb v half then pos v else negsuc (2 * half - 1 - v)

abbrev pub InRange : ℕ → ℤ → Type 0
InRange half (pos n) = n < half
InRange half (negsuc n) = n < half

pub of_word-to_word : (half : ℕ) (z : ℤ) → InRange half z → of_word half (to_word half z) ≡ z
unfolding to_word of_word
of_word-to_word half (pos n) h = grind (arith, mod-eq_of_lt)
of_word-to_word half (negsuc n) h = grind (arith, mod-eq_of_lt)

pub to_word-lt : (half : ℕ) (z : ℤ) → InRange half z → to_word half z < 2 * half
unfolding to_word
to_word-lt half (pos n) h = grind (arith, mod-eq_of_lt)
to_word-lt half (negsuc n) h = grind (arith, mod-eq_of_lt)

unfoldable pub equal_int : ℤ → ℤ → Bool
equal_int (pos m) (pos n) = m == n
equal_int (negsuc m) (negsuc n) = m == n
equal_int _ _ = false

-- `a < b`
abbrev pub ltb_int : ℤ → ℤ → Bool
ltb_int (pos m) (pos n) = ltb m n
ltb_int (pos m) (negsuc n) = false
ltb_int (negsuc m) (pos n) = true
ltb_int (negsuc m) (negsuc n) = ltb n m
