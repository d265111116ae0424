-- ===== src/Prelude/Bits.antt =====
-- `|` on numbers whose bits do not overlap is `+`. Go's decoders join bytes by `|`.
use Prim.Native.Nat.{
  ℕ, zero, suc, ◌+◌, ◌*◌, ◌/◌, ◌%◌, ◌^◌, ◌≤◌, ◌<◌, max, bit_or, digits, bit_or-bitwise,
}
use mathlib.Core.Path.{◌≡◌, refl, ap, ◌∙◌}
use native.Mathlib.Omega.{arith}
use native.Mathlib.Nat.{pow-suc}

abbrev or_digits : ℕ → ℕ → ℕ → ℕ
or_digits n a b = digits (λ b. b) max n a b

-- The digits of `a` stand below the `k`-th, those of the other number from the `k`-th on.
or_digits-join : (n a k b c : ℕ) → a ≤ n → a < 2 ^ k → c ≡ b * 2 ^ k → or_digits n a c ≡ a + c
or_digits-join zero zero k b c h lt e = omega arith
or_digits-join zero (suc a) k b c h lt e = absurd (omega arith)
or_digits-join (suc n) zero k b c h lt e = omega arith
or_digits-join (suc n) (suc a) zero b c h lt e = absurd (omega arith)
or_digits-join (suc n) (suc a) (suc k) b c h lt e = omega (
  arith,
  or_digits-join n (suc a / 2) k b (c / 2) (omega arith) (omega (arith, pow-suc 2 k)) half,
  even,
)
  where
    double : c ≡ b * 2 ^ k * 2
    double = omega (arith, ap (λ (t : ℕ). b * t) (pow-suc 2 k))

    half : c / 2 ≡ b * 2 ^ k
    half = omega (arith, double)

    even : c % 2 ≡ 0
    even = omega (arith, double)

pub bit_or-join : (k a b : ℕ) → a < 2 ^ k → bit_or a (b * 2 ^ k) ≡ a + b * 2 ^ k
bit_or-join k a b h =
    bit_or-bitwise a (b * 2 ^ k) ∙ or_digits-join a a k b (b * 2 ^ k) (omega arith) h refl
