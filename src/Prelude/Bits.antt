-- ===== src/Prelude/Bits.antt =====
-- `bit_or` of values with no bit in common, and checks of all the values of a byte.
use Prim.Native.Nat.{
  ℕ, zero, suc, ◌+◌, ◌*◌, ◌/◌, ◌%◌, ◌^◌, ◌≤◌, ◌<◌, max, bit_or, digits, bit_or-bitwise,
}
use mathlib.Core.Path.{◌≡◌, refl, ap, ◌∙◌}
use mathlib.Core.Bool.{Bool, true, ◌&&◌}
use native.Mathlib.Nat.{pow-suc}
use native.Mathlib.Omega.{arith}

unfoldable pub all_below : ℕ → (ℕ → Bool) → Bool
all_below zero test = true
all_below (suc bound) test = test bound && all_below bound test

pub all_below_sound :
    (bound : ℕ) (test : ℕ → Bool) (v : ℕ) → all_below bound test ≡ true → v < bound → test v ≡ true
unfolding all_below
all_below_sound zero test v passed small = absurd (omega arith)
all_below_sound (suc bound) test v passed small = ground (arith, all_below_sound bound test v)

-- The digit recursion that the native operation stands for, with any sufficient fuel.
abbrev or_digits : ℕ → ℕ → ℕ → ℕ
or_digits fuel x y = digits (λ y. y) max fuel x y

or_digits_fuel : (f g x y : ℕ) → x ≤ f → x ≤ g → or_digits f x y ≡ or_digits g x y
or_digits_fuel (suc f) (suc g) (suc x) y u v =
    omega (arith, or_digits_fuel f g (suc x / 2) (y / 2) (omega arith) (omega arith))
or_digits_fuel zero g (suc x) y u v = absurd (omega arith)
or_digits_fuel (suc f) zero (suc x) y u v = absurd (omega arith)
or_digits_fuel zero zero zero y u v = refl
or_digits_fuel zero (suc g) zero y u v = refl
or_digits_fuel (suc f) zero zero y u v = refl
or_digits_fuel (suc f) (suc g) zero y u v = refl

halve : (x y : ℕ) → x ≡ y * 2 → x / 2 ≡ y
halve x y h = omega arith

pub zero-bit_or : (y : ℕ) → bit_or 0 y ≡ y
zero-bit_or y = bit_or-bitwise 0 y

pub bit_or_step : (x y : ℕ) → bit_or x y ≡ bit_or (x / 2) (y / 2) * 2 + max (x % 2) (y % 2)
bit_or_step (suc x) y = omega (
  arith,
  or_digits_fuel x (suc x / 2) (suc x / 2) (y / 2) (omega arith) (omega arith),
  bit_or-bitwise (suc x / 2) (y / 2),
  bit_or-bitwise (suc x) y,
)
bit_or_step zero y = omega (arith, zero-bit_or (y / 2), zero-bit_or y)

-- The bits of `b`, moved up by `k`, meet none of the bits of `a`.
pub bit_or-shift : (k a b : ℕ) → a < 2 ^ k → bit_or a (b * 2 ^ k) ≡ a + b * 2 ^ k
bit_or-shift zero zero b h = zero-bit_or (b * 1) ∙ omega arith
bit_or-shift zero (suc a) b h = absurd (omega arith)
bit_or-shift (suc k) a b h =
    let p : 2 ^ suc k ≡ 2 ^ k * 2 = pow-suc 2 k in
    let half : b * 2 ^ suc k ≡ b * 2 ^ k * 2 = omega (arith, ap (λ (t : ℕ). b * t) p) in
    omega (
      arith,
      p,
      half,
      bit_or_step a (b * 2 ^ suc k),
      ap (λ (t : ℕ). bit_or (a / 2) t) (halve (b * 2 ^ suc k) (b * 2 ^ k) half),
      bit_or-shift k (a / 2) b (omega (arith, p)),
    )
