-- ===== src/Base/Bytes.antt =====
-- The bitwise or of numbers that have no binary digit in common: a shifted number and a small one.
use Prim.Native.Nat.{
  ℕ, zero, suc, ◌+◌, ◌*◌, ◌/◌, ◌^◌, ◌≤◌, ◌<◌, max, bit_or, digits, bit_or-bitwise,
}
use mathlib.Core.Path.{◌≡◌, refl, ap, ◌∙◌}
use native.Mathlib.Nat.{pow-suc}
use native.Mathlib.Omega.{arith}

halve : (a k c : ℕ) → c ≡ a * 2 ^ suc k → c ≡ a * 2 ^ k * 2
halve a k c e = e ∙ ap (λ p. a * p) (pow-suc 2 k) ∙ omega arith

-- The digits of `c`, a multiple of 2 ^ k, and of `lo`, which is smaller than that.
or_aligned :
    (n c lo k a : ℕ) → c ≤ n → c ≡ a * 2 ^ k → lo < 2 ^ k → digits (λ b. b) max n c lo ≡ c + lo
or_aligned zero c lo k a enough e small = omega arith
or_aligned (suc n) zero lo k a enough e small = omega arith
or_aligned (suc n) (suc c) lo zero a enough e small = omega (
  arith,
  or_aligned n (suc c / 2) (lo / 2) zero (suc c / 2) (omega arith) (omega arith) (omega arith),
)
or_aligned (suc n) (suc c) lo (suc k) a enough e small =
    let e' : suc c ≡ a * 2 ^ k * 2 = halve a k (suc c) e in
    omega
      (arith, e', or_aligned n (suc c / 2) (lo / 2) k a (omega arith) (omega arith) (omega arith))

-- `(hi << k) | lo` is their sum where `lo` has `k` digits.
pub bit_or_shifted : (k hi lo : ℕ) → lo < 2 ^ k → bit_or (hi * 2 ^ k) lo ≡ hi * 2 ^ k + lo
bit_or_shifted k hi lo small = omega (
  arith,
  bit_or-bitwise (hi * 2 ^ k) lo,
  or_aligned (hi * 2 ^ k) (hi * 2 ^ k) lo k hi (omega arith) refl small,
)

-- `(hi << 4) | lo` of two nibbles.
pub bit_or_nibbles : (hi lo : ℕ) → hi < 16 → lo < 16 → bit_or (hi * 16) lo ≡ hi * 16 + lo
bit_or_nibbles hi lo p q = bit_or_shifted 4 hi lo q
