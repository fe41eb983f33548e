-- ===== src/Prelude/Bits.antt =====
-- Bounds of the bit operations, digit by digit.
use Prim.Native.Nat.{
  ℕ, zero, suc, ◌+◌, ◌/◌, ◌%◌, ◌^◌, ◌<◌, ◌≤◌, max, digits, differ, bit_or, bit_xor, bit_or-bitwise,
  bit_xor-bitwise,
}
use mathlib.Core.Path.{◌≡◌}
use native.Mathlib.Omega.{arith}

module _ (f : ℕ → ℕ → ℕ) (bit : (x y : ℕ) → x < 2 → y < 2 → f x y < 2) where
  -- Numbers of k digits give a number of k digits.
  digits-bound : (k n a b : ℕ) → a < 2 ^ k → b < 2 ^ k → digits (λ y. y) f n a b < 2 ^ k
  digits-bound k zero a b h l = l
  digits-bound k (suc n) zero b h l = l
  digits-bound zero (suc n) (suc a) b h l = absurd (omega arith)
  digits-bound (suc k) (suc n) (suc a) b h l =
      let rest = digits-bound k n (suc a / 2) (b / 2) (omega arith) (omega arith) in
      omega (arith, rest, bit (suc a % 2) (b % 2) (omega arith) (omega arith))

differ-bound : (x y : ℕ) → x < 2 → y < 2 → differ x y < 2
differ-bound zero y h l = l
differ-bound (suc x) zero h l = h
differ-bound (suc x) (suc y) h l = differ-bound x y (omega arith) (omega arith)

pub bit_xor-bound : (k a b : ℕ) → a < 2 ^ k → b < 2 ^ k → bit_xor a b < 2 ^ k
bit_xor-bound k a b h l = simp bit_xor-bitwise (digits-bound differ differ-bound k a a b h l)

digits-power : (k n a : ℕ) → a ≤ n → a < 2 ^ k → digits (λ y. y) max n a (2 ^ k) ≡ a + 2 ^ k
digits-power k zero zero m h = omega arith
digits-power k zero (suc a) m h = absurd (omega arith)
digits-power k (suc n) zero m h = omega arith
digits-power zero (suc n) (suc a) m h = absurd (omega arith)
digits-power (suc k) (suc n) (suc a) m h =
    let rest = digits-power k n (suc a / 2) (omega arith) (omega arith) in
    let half : 2 ^ suc k / 2 ≡ 2 ^ k = omega arith in
    let even : 2 ^ suc k % 2 ≡ 0 = omega arith in rw (half, even, rest) (omega arith)

-- A bit above the number is added to it.
pub bit_or_power : (k a : ℕ) → a < 2 ^ k → bit_or a (2 ^ k) ≡ a + 2 ^ k
bit_or_power k a h = simp bit_or-bitwise (digits-power k a a (omega arith) h)
