-- ===== src/Base/Int.antt =====
-- C's `int`: `negsuc n` is -(n + 1).
use Prim.Native.Nat.{ℕ, ◌-◌, ◌+◌, ◌%◌}
use mathlib.Core.Path.{◌≡◌}
use mathlib.Core.Logic.{◌↔◌}
use mathlib.Core.Bool.{Bool, true, false}
use native.Mathlib.Omega.{arith}
use hltos.Base.Tests.{◌==◌, ltb, if◌then◌else◌}

pub data ℤ : Type 0 where
  pos : ℕ → ℤ
  negsuc : ℕ → ℤ

abbrev pub int_eq : ℤ → ℤ → Bool
int_eq (pos m) (pos n) = m == n
int_eq (pos m) (negsuc n) = false
int_eq (negsuc m) (pos n) = false
int_eq (negsuc m) (negsuc n) = m == n

pub int_eq_iff : (a b : ℤ) → (int_eq a b ≡ true) ↔ (a ≡ b)
int_eq_iff a b = ground arith

abbrev pub is_negative : ℤ → Bool
is_negative (pos n) = false
is_negative (negsuc n) = true

infixl 40 ◌+ℤ◌
abbrev pub ◌+ℤ◌ : ℤ → ℤ → ℤ
pos m +ℤ pos n = pos (m + n)
pos m +ℤ negsuc n = if ltb n m then pos (m - n - 1) else negsuc (n - m)
negsuc m +ℤ pos n = if ltb m n then pos (n - m - 1) else negsuc (m - n)
negsuc m +ℤ negsuc n = negsuc (m + n + 1)

-- The conversion of a 64-bit word to `intmax_t`, and of an integer to `size_t`.
abbrev pub signed64 : ℕ → ℤ
signed64 n = if ltb n 9223372036854775808 then pos n else negsuc (18446744073709551615 - n)

abbrev pub word64 : ℤ → ℕ
word64 (pos n) = n % 18446744073709551616
word64 (negsuc n) = 18446744073709551615 - n % 18446744073709551616

-- The conversion of a word to `int`.
abbrev pub signed32 : ℕ → ℤ
signed32 n =
    let low = n % 4294967296 in if ltb low 2147483648 then pos low else negsuc (4294967295 - low)
