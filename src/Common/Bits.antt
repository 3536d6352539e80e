-- ===== src/Common/Bits.antt =====
-- `|` of a word and a field shifted above it is a sum, at every width.
use Prim.Native.Nat.{
  ℕ, zero, suc, ◌+◌, ◌*◌, ◌/◌, ◌%◌, ◌^◌, ◌≤◌, ◌<◌, max, bit_or, digits, bit_or-bitwise,
}
use mathlib.Core.Path.{◌≡◌, refl, ap}
use native.Mathlib.Nat.{pow-suc}
use native.Mathlib.Omega.{arith}

abbrev or_digits : ℕ → ℕ → ℕ → ℕ
or_digits fuel a b = digits (λ c. c) max fuel a b

-- Any count of digits from `a` on gives the same result.
or_digits_stable : (f g a b : ℕ) → a ≤ f → a ≤ g → or_digits f a b ≡ or_digits g a b
or_digits_stable zero zero a b p q = refl
or_digits_stable zero (suc g) zero b p q = refl
or_digits_stable zero (suc g) (suc a) b p q = absurd (omega arith)
or_digits_stable (suc f) zero zero b p q = refl
or_digits_stable (suc f) zero (suc a) b p q = absurd (omega arith)
or_digits_stable (suc f) (suc g) zero b p q = refl
or_digits_stable (suc f) (suc g) (suc a) b p q =
    omega (arith, or_digits_stable f g (suc a / 2) (b / 2) (omega arith) (omega arith))

zero-bit_or : (b : ℕ) → bit_or 0 b ≡ b
zero-bit_or b = bit_or-bitwise 0 b

-- The lowest digit of `|`, and the rest.
bit_or_halves : (a b : ℕ) → bit_or a b ≡ bit_or (a / 2) (b / 2) * 2 + max (a % 2) (b % 2)
bit_or_halves zero b = omega (arith, zero-bit_or b, zero-bit_or (b / 2))
bit_or_halves (suc a) b = omega (
  arith,
  bit_or-bitwise (suc a) b,
  bit_or-bitwise (suc a / 2) (b / 2),
  or_digits_stable a (suc a / 2) (suc a / 2) (b / 2) (omega arith) (omega arith),
)

double_field : (b k : ℕ) → b * 2 ^ suc k ≡ 2 * (b * 2 ^ k)
double_field b k = omega (arith, ap (λ (t : ℕ). b * t) (pow-suc 2 k))

pub bit_or-shifted : (k a b : ℕ) → a < 2 ^ k → bit_or a (b * 2 ^ k) ≡ a + b * 2 ^ k
bit_or-shifted zero a b h =
    let e : a ≡ 0 = omega arith in rw e (omega (arith, zero-bit_or (b * 2 ^ 0)))
bit_or-shifted (suc k) a b h = ground (
  arith,
  bit_or_halves a (b * 2 ^ suc k),
  double_field b k,
  pow-suc 2 k,
  bit_or-shifted k (a / 2) b (omega (arith, pow-suc 2 k)),
)
