-- ===== src/Hardware/Codes.antt =====
-- src/hardware/adc.rs and src/hardware/dac.rs: the codes of samples. An i16 is its two's complement
-- bit pattern. The arithmetic of f32 is a parameter.
pub mod Order
use stabilizer.Prelude.{ℕ, ◌+◌, ◌-◌, ◌&&◌, ltb, if◌then◌else◌, Bool, u16}
use stabilizer.Prelude.Results.{Result, ok, err}
use stabilizer.Prelude.Floats.{Floats, SignedFloats}

pub record AdcCode : Type 0 where
  pub adc_word : ℕ

pub record DacCode : Type 0 where
  pub dac_word : ℕ

-- `i16::MIN` and `i16::MAX`.
abbrev pub i16_min : ℕ
i16_min = 32768

abbrev pub i16_max : ℕ
i16_max = 32767

-- `a.wrapping_add(b)` and `a.wrapping_sub(b)` of i16.
abbrev pub wrapping_add : ℕ → ℕ → ℕ
wrapping_add a b = u16 (a + b)

abbrev pub wrapping_sub : ℕ → ℕ → ℕ
wrapping_sub a b = u16 (a + (65536 - b))

-- `a.saturating_add(b)` of i16: two numbers of one sign overflow when the sum has the other.
abbrev pub saturating_add : ℕ → ℕ → ℕ
saturating_add a b =
    let sum = u16 (a + b) in
    if ltb a 32768
    then (if ltb b 32768 then (if ltb sum 32768 then sum else i16_max) else sum)
    else (if ltb b 32768 then sum else (if ltb sum 32768 then i16_min else sum))

-- The conversions between `AdcCode`, `u16` and `i16`, which keep the bits.
abbrev pub adc_code : ℕ → AdcCode
adc_code value = record { adc_word = value }

abbrev pub adc_to_i16 : AdcCode → ℕ
adc_to_i16 code = code.adc_word

-- `DacCode::from(i16)`, `DacCode::from(u16)` and `i16::from(DacCode)`: offset binary.
unfoldable pub dac_code : ℕ → DacCode
dac_code value = record { dac_word = wrapping_add value i16_min }

abbrev pub dac_code_of_u16 : ℕ → DacCode
dac_code_of_u16 value = record { dac_word = value }

unfoldable pub dac_to_i16 : DacCode → ℕ
dac_to_i16 code = wrapping_sub code.dac_word i16_min

module _ (floats : Floats) (signed : SignedFloats floats) where
  open floats use {Float, literal, times, over, at_most}

  abbrev pub adc_full_scale : Float
  adc_full_scale = times (over (literal 5 1) (literal 2 1)) (literal 4096 1000)

  abbrev pub adc_volt_per_lsb : Float
  adc_volt_per_lsb = over (signed.negative adc_full_scale) (signed.from_i16 i16_min)

  abbrev pub adc_lsb_per_volt : Float
  adc_lsb_per_volt = over (literal 1 1) adc_volt_per_lsb

  abbrev pub dac_full_scale : Float
  dac_full_scale = times (literal 4096 1000) (literal 25 10)

  abbrev pub dac_volt_per_lsb : Float
  dac_volt_per_lsb = over (signed.negative dac_full_scale) (signed.from_i16 i16_min)

  abbrev pub dac_lsb_per_volt : Float
  dac_lsb_per_volt = over (literal 1 1) dac_volt_per_lsb

  -- `f32::from` of the codes.
  abbrev pub adc_volts : AdcCode → Float
  adc_volts code = times (signed.from_i16 (adc_to_i16 code)) adc_volt_per_lsb

  unfoldable pub dac_volts : DacCode → Float
  dac_volts code = times (signed.from_i16 (dac_to_i16 code)) dac_volt_per_lsb

  -- `(i16::MIN as f32..=i16::MAX as f32).contains(&code)`.
  abbrev pub is_i16 : Float → Bool
  is_i16 code = at_most (signed.from_i16 i16_min) code && at_most code (signed.from_i16 i16_max)

  -- `try_from` of a voltage.
  unfoldable pub adc_from_volts : Float → Result (Unit {0}) AdcCode
  adc_from_volts voltage =
      let code = times voltage adc_lsb_per_volt in
      if is_i16 code then ok (adc_code (signed.as_i16 code)) else err tt

  unfoldable pub dac_from_volts : Float → Result (Unit {0}) DacCode
  dac_from_volts voltage =
      let code = times voltage dac_lsb_per_volt in
      if is_i16 code then ok (dac_code (signed.as_i16 code)) else err tt
