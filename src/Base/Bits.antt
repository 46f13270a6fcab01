-- ===== src/Base/Bits.antt =====
-- The bits of a word under `&`, `|` and `~`. The native operations mean a recursion over the binary
-- digits with fuel; the laws below read a word by `test_bit`.
use Prim.Native.Nat.{
  ℕ, zero, suc, ◌+◌, ◌-◌, ◌*◌, ◌/◌, ◌%◌, ◌^◌, ◌≤◌, ◌<◌, min, max, digits, bit_and, bit_or,
  bit_and-bitwise, bit_or-bitwise,
}
use mathlib.Core.Path.{◌≡◌, refl, ◌∙◌, ap}
use native.Mathlib.Nat.{pow-suc, one-le-pow}
use native.Mathlib.Omega.{arith}
use hltos.Base.Tests.{◌==◌, if◌then◌else◌}

-- Bit `k` of `a`, as 0 or 1.
abbrev pub test_bit : ℕ → ℕ → ℕ
test_bit a zero = a % 2
test_bit a (suc k) = test_bit (a / 2) k

pub test_bit_bound : (a k : ℕ) → test_bit a k < 2
test_bit_bound a zero = omega arith
test_bit_bound a (suc k) = test_bit_bound (a / 2) k

module _ (rest : ℕ → ℕ) (digit : ℕ → ℕ → ℕ) where
  more_fuel : (a b f g : ℕ) → a ≤ f → a ≤ g → digits rest digit f a b ≡ digits rest digit g a b
  more_fuel zero b zero zero p q = refl
  more_fuel zero b zero (suc g) p q = refl
  more_fuel zero b (suc f) zero p q = refl
  more_fuel zero b (suc f) (suc g) p q = refl
  more_fuel (suc a) b zero g p q = absurd (omega arith)
  more_fuel (suc a) b (suc f) zero p q = absurd (omega arith)
  more_fuel (suc a) b (suc f) (suc g) p q =
      ap (λ d. d * 2 + digit (suc a % 2) (b % 2))
        (more_fuel (suc a / 2) (b / 2) f g (omega arith) (omega arith))

  first_digit :
      (a b : ℕ)
      → digits rest digit (suc a) (suc a) b
        ≡ digits rest digit (suc a / 2) (suc a / 2) (b / 2) * 2 + digit (suc a % 2) (b % 2)
  first_digit a b =
      ap (λ d. d * 2 + digit (suc a % 2) (b % 2))
        (more_fuel (suc a / 2) (b / 2) a (suc a / 2) (omega arith) (omega arith))

bit_and_halves : (a b : ℕ) → bit_and a b ≡ bit_and (a / 2) (b / 2) * 2 + min (a % 2) (b % 2)
bit_and_halves zero b = simp bit_and-bitwise (omega arith)
bit_and_halves (suc a) b = simp bit_and-bitwise (first_digit (λ y. 0) min a b)

bit_or_halves : (a b : ℕ) → bit_or a b ≡ bit_or (a / 2) (b / 2) * 2 + max (a % 2) (b % 2)
bit_or_halves zero b = simp bit_or-bitwise (omega arith)
bit_or_halves (suc a) b = simp bit_or-bitwise (first_digit (λ y. y) max a b)

pub test_bit-bit_and : (a b k : ℕ) → test_bit (bit_and a b) k ≡ min (test_bit a k) (test_bit b k)
test_bit-bit_and a b zero = omega (arith, bit_and_halves a b)
test_bit-bit_and a b (suc k) =
    ap (λ x. test_bit x k) (half a b) ∙ test_bit-bit_and (a / 2) (b / 2) k
  where
    half : (a b : ℕ) → bit_and a b / 2 ≡ bit_and (a / 2) (b / 2)
    half a b = omega (arith, bit_and_halves a b)

pub test_bit-bit_or : (a b k : ℕ) → test_bit (bit_or a b) k ≡ max (test_bit a k) (test_bit b k)
test_bit-bit_or a b zero = omega (arith, bit_or_halves a b)
test_bit-bit_or a b (suc k) = ap (λ x. test_bit x k) (half a b) ∙ test_bit-bit_or (a / 2) (b / 2) k
  where
    half : (a b : ℕ) → bit_or a b / 2 ≡ bit_or (a / 2) (b / 2)
    half a b = omega (arith, bit_or_halves a b)

-- `1 << k` has bit `k` alone.
pub test_bit-pow : (k j : ℕ) → test_bit (2 ^ k) j ≡ (if k == j then 1 else 0)
test_bit-pow zero zero = refl
test_bit-pow zero (suc j) = zero_bits j ∙ ground arith
  where
    zero_bits : (j : ℕ) → test_bit 0 j ≡ 0
    zero_bits zero = refl
    zero_bits (suc j) = zero_bits j
test_bit-pow (suc k) zero = ground (arith, pow-suc 2 k)
test_bit-pow (suc k) (suc j) = ap (λ x. test_bit x j) (half k) ∙ test_bit-pow k j ∙ ground arith
  where
    half : (k : ℕ) → 2 ^ suc k / 2 ≡ 2 ^ k
    half k = omega (arith, pow-suc 2 k)

-- `~x` of a `w`-bit word has the other bits.
pub test_bit-complement :
    (w x k : ℕ) → x < 2 ^ w → k < w → test_bit (2 ^ w - 1 - x) k ≡ 1 - test_bit x k
test_bit-complement zero x k h p = absurd (omega arith)
test_bit-complement (suc w) x zero h p = omega (arith, pow-suc 2 w)
test_bit-complement (suc w) x (suc k) h p =
    ap (λ y. test_bit y k) (half w x h)
    ∙ test_bit-complement w (x / 2) k (omega (arith, pow-suc 2 w)) (omega arith)
  where
    half : (w x : ℕ) → x < 2 ^ suc w → (2 ^ suc w - 1 - x) / 2 ≡ 2 ^ w - 1 - x / 2
    half w x h = omega (arith, pow-suc 2 w)

bit_and-zero_below : (n a : ℕ) → a ≤ n → bit_and a 0 ≡ 0
bit_and-zero_below n zero h = refl
bit_and-zero_below zero (suc a) h = absurd (omega arith)
bit_and-zero_below (suc n) (suc a) h =
    omega (arith, bit_and_halves (suc a) 0, bit_and-zero_below n (suc a / 2) (omega arith))

-- `a & (1 << k)` is 0 exactly when bit `k` is.
pub bit_and-pow : (a k : ℕ) → bit_and a (2 ^ k) ≡ test_bit a k * 2 ^ k
bit_and-pow a zero =
    omega (arith, bit_and_halves a 1, bit_and-zero_below (a / 2) (a / 2) (omega arith))
bit_and-pow a (suc k) =
    let half : 2 ^ suc k / 2 ≡ 2 ^ k = omega (arith, pow-suc 2 k) in
    let ih = ap (bit_and (a / 2)) half ∙ bit_and-pow (a / 2) k in
    let doubled = ap (λ (t : ℕ). test_bit (a / 2) k * t) (pow-suc 2 k) in
    omega (arith, bit_and_halves a (2 ^ suc k), ih, pow-suc 2 k, doubled)

pub bit_and-pow_zero : (a k : ℕ) → (bit_and a (2 ^ k) == 0) ≡ (test_bit a k == 0)
bit_and-pow_zero a k =
    ground
      (arith, bit_and-pow a k, test_bit_bound a k, one-le-pow k 2, small (test_bit a k) (2 ^ k))
  where
    small : (b p : ℕ) → b < 2 → b * p ≡ (if b == 0 then 0 else p)
    small zero p h = omega arith
    small (suc zero) p h = omega arith
    small (suc (suc b)) p h = absurd (omega arith)

pub pow_lt : (k w : ℕ) → k < w → 2 ^ k < 2 ^ w
pow_lt k zero h = absurd (omega arith)
pow_lt zero (suc w) h = omega (arith, pow-suc 2 w, one-le-pow w 2)
pow_lt (suc k) (suc w) h = omega (arith, pow-suc 2 w, pow-suc 2 k, pow_lt k w (omega arith))

-- Every bit of the word with all bits set.
pub test_bit-ones : (w k : ℕ) → k < w → test_bit (2 ^ w - 1) k ≡ 1
test_bit-ones zero k p = absurd (omega arith)
test_bit-ones (suc w) zero p = omega (arith, pow-suc 2 w, one-le-pow w 2)
test_bit-ones (suc w) (suc k) p = ap (λ y. test_bit y k) (half w) ∙ test_bit-ones w k (omega arith)
  where
    half : (w : ℕ) → (2 ^ suc w - 1) / 2 ≡ 2 ^ w - 1
    half w = omega (arith, pow-suc 2 w, one-le-pow w 2)
