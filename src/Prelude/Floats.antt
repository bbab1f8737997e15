-- ===== src/Prelude/Floats.antt =====
-- `f32` as the code uses it. The arithmetic of the target is a parameter: its theorems hold for
-- every rounding.
use Prim.Native.Nat.{ℕ, min}
use mathlib.Core.Bool.{Bool}

pub record Floats : Type 1 where
  pub Float : Type 0
  -- `n as f32`, and the literal `n / d` in decimals.
  pub from_nat : ℕ → Float
  pub literal : ℕ → ℕ → Float
  pub times : Float → Float → Float
  pub over : Float → Float → Float
  -- `x < y` and `x <= y`, both false at NaN.
  pub less : Float → Float → Bool
  pub at_most : Float → Float → Bool
  -- The integer part, 0 below zero and at NaN.
  pub integer_part : Float → ℕ

-- Signed numbers: an i16 or i32 is its bit pattern.
pub record SignedFloats (floats : Floats) : Type 0 where
  pub plus : floats.Float → floats.Float → floats.Float
  pub minus : floats.Float → floats.Float → floats.Float
  pub negative : floats.Float → floats.Float
  -- `n as f32` of an i16.
  pub from_i16 : ℕ → floats.Float
  -- `x as i16` and `x as i32`, which saturate.
  pub as_i16 : floats.Float → ℕ
  pub as_i32 : floats.Float → ℕ

module _ (floats : Floats) where
  open floats use {Float, integer_part}

  -- `x as u8`, `x as u16`, `x as u32`, which saturate.
  abbrev pub as_u8 : Float → ℕ
  as_u8 x = min (integer_part x) 255

  abbrev pub as_u16 : Float → ℕ
  as_u16 x = min (integer_part x) 65535

  abbrev pub as_u32 : Float → ℕ
  as_u32 x = min (integer_part x) 4294967295
