-- ===== src/Prelude/Masks.antt =====
-- `x & 0x3FF` and `x & 0x3FFF` as remainders.
use Prim.Native.Nat.{ℕ, zero, suc, ◌+◌, ◌*◌, ◌/◌, ◌%◌, ◌≤◌, min, bit_and, digits, bit_and-bitwise}
use mathlib.Core.Path.{◌≡◌, refl, ◌∙◌}
use native.Mathlib.Omega.{arith}

-- The lowest `k` binary digits, and the number with `k` ones.
abbrev low : ℕ → ℕ → ℕ
low zero a = 0
low (suc k) a = low k (a / 2) * 2 + a % 2

abbrev ones : ℕ → ℕ
ones zero = 0
ones (suc k) = ones k * 2 + 1

abbrev common : ℕ → ℕ → ℕ → ℕ
common fuel a b = digits (λ b. 0) min fuel a b

halves : (m : ℕ) → ((m * 2 + 1) / 2 ≡ m) × ((m * 2 + 1) % 2 ≡ 1)
halves m = (omega arith, omega arith)

low-zero : (k : ℕ) → low k 0 ≡ 0
low-zero zero = refl
low-zero (suc k) = omega (arith, low-zero k)

common-ones : (k fuel a : ℕ) → a ≤ fuel → common fuel a (ones k) ≡ low k a
common-ones k zero zero h = omega (arith, low-zero k)
common-ones k zero (suc a) h = absurd (omega arith)
common-ones k (suc fuel) zero h = omega (arith, low-zero k)
common-ones zero (suc fuel) (suc a) h = omega (arith, common-ones 0 fuel (suc a / 2) (omega arith))
common-ones (suc k) (suc fuel) (suc a) h =
    let (half, odd) = halves (ones k) in
    rw (half, odd) (omega (arith, common-ones k fuel (suc a / 2) (omega arith)))

bit_and-ones : (k a : ℕ) → bit_and a (ones k) ≡ low k a
bit_and-ones k a = bit_and-bitwise a (ones k) ∙ common-ones k a a (omega arith)

pub bit_and-mask10 : (a : ℕ) → bit_and a 0x3FF ≡ a % 1024
bit_and-mask10 a = bit_and-ones 10 a ∙ omega arith

pub bit_and-mask14 : (a : ℕ) → bit_and a 0x3FFF ≡ a % 16384
bit_and-mask14 a = bit_and-ones 14 a ∙ omega arith
