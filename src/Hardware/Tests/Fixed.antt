-- ===== src/Hardware/Tests/Fixed.antt =====
-- Signed fixed-point numbers in units of 2^-40, a sign (true is negative) and a magnitude, on which
-- the theorems over f32 run.
use stabilizer.Prelude.{
  ℕ, ◌+◌, ◌*◌, ◌-◌, ◌/◌, ◌≡◌, ◌<◌, refl, arith, min, ltb, not, ◌&&◌, ◌==◌, Bool-cases, inl, inr,
  if◌then◌else◌, Bool, true, false,
}
use stabilizer.Prelude.Floats.{Floats, SignedFloats}
use stabilizer.Hardware.SignalGenerator.Conversion.Bounds.{Forward}

abbrev pub Fixed : Type 0
Fixed = Bool × ℕ

abbrev unit : ℕ
unit = 1099511627776

abbrev pub less : Fixed → Fixed → Bool
less (false, m) (false, n) = ltb m n
less (true, m) (true, n) = ltb n m
less (true, m) (false, n) = not ((m == 0) && (n == 0))
less (false, m) (true, n) = false

abbrev xor : Bool → Bool → Bool
xor true b = not b
xor false b = b

abbrev pub sum : Fixed → Fixed → Fixed
sum (false, m) (false, n) = (false, m + n)
sum (true, m) (true, n) = (true, m + n)
sum (false, m) (true, n) = if ltb m n then (true, n - m) else (false, m - n)
sum (true, m) (false, n) = if ltb n m then (true, m - n) else (false, n - m)

abbrev pub fixed : Floats
fixed = record {
  Float = Fixed;
  from_nat = λ n. (false, n * unit);
  literal = λ n d. (false, n * unit / d);
  times = λ x y. (xor x.0 y.0, x.1 * y.1 / unit);
  over = λ x y. if x.1 == 0 then (false, 0) else (xor x.0 y.0, x.1 * unit / y.1);
  less = less;
  at_most = λ x y. not (less y x);
  integer_part = λ x. if x.0 then 0 else x.1 / unit;
}

abbrev saturated : ℕ → ℕ → Fixed → ℕ
saturated limit modulus (false, m) = min (m / unit) (limit - 1)
saturated limit modulus (true, m) =
    let k = min (m / unit) limit in if k == 0 then 0 else modulus - k

abbrev pub signed_fixed : SignedFloats fixed
signed_fixed = record {
  plus = sum;
  minus = λ x y. sum x (not y.0, y.1);
  negative = λ x. (not x.0, x.1);
  from_i16 = λ n. if ltb n 32768 then (false, n * unit) else (true, (65536 - n) * unit);
  as_i16 = saturated 32768 65536;
  as_i32 = saturated 2147483648 4294967296;
}

pub cast_forward :
    (x : Fixed) → less x (false, 0) ≡ false → saturated 2147483648 4294967296 x < 2147483648
cast_forward (false, m) h = omega arith
cast_forward (true, m) h = ground arith

negative_zero : (m : ℕ) → less (true, m) (false, 0) ≡ false → (m == 0) ≡ true
negative_zero m h = ground arith

pub over_forward :
    (x y : Fixed)
    → less x (false, 0) ≡ false
    → less x (fixed.times y (fixed.from_nat 2147483648)) ≡ true
    → less (fixed.over x y) (false, 0) ≡ false
over_forward (false, m) (false, n) h k = elim (Bool-cases (m == 0)) [
  | inl z ↦ rw z refl
  | inr p ↦ rw p (ground arith)
]
over_forward (false, m) (true, n) h k = cc
over_forward (true, m) (s, n) h k = rw (negative_zero m h) refl

abbrev pub fixed_forward : Forward fixed signed_fixed
fixed_forward = record { cast_lem = cast_forward; over_lem = over_forward; nyquist_lem = refl }
