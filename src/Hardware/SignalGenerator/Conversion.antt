-- ===== src/Hardware/SignalGenerator/Conversion.antt =====
-- src/hardware/signal_generator.rs, `BasicConfig` and its conversion. The arithmetic of f32 is a
-- parameter.
pub mod Bounds
use stabilizer.Prelude.{◌||◌, if◌then◌else◌}
use stabilizer.Prelude.Results.{Result, ok, err}
use stabilizer.Prelude.Floats.{Floats, SignedFloats}
use stabilizer.Hardware.Codes.{i16_min, is_i16}
use stabilizer.Hardware.SignalGenerator.{Signal, cosine, Config}

pub data Error : Type 0 where
  invalid_amplitude invalid_symmetry invalid_frequency : Error

-- `Config::default`.
abbrev pub default_config : Config
default_config = record {
  signal = cosine;
  amplitude = 0;
  phase_increment0 = 0;
  phase_increment1 = 0;
  phase_offset = 0;
}

module _ (floats : Floats) (signed : SignedFloats floats) where
  open floats use {Float, from_nat, literal, times, over, less}
  open signed use {minus, negative, from_i16, as_i16, as_i32}

  pub record BasicConfig : Type 0 where
    pub signal : Signal
    pub frequency : Float
    pub symmetry : Float
    pub amplitude : Float
    pub phase : Float

  abbrev pub default_basic_config : BasicConfig
  default_basic_config = record {
    frequency = literal 1000 1;
    symmetry = literal 5 10;
    signal = cosine;
    amplitude = literal 0 1;
    phase = literal 0 1;
  }

  abbrev pub nyquist : Float
  nyquist = from_nat 2147483648

  abbrev pub tuning_word : BasicConfig → Float → Float
  tuning_word basic sample_period = times (times basic.frequency sample_period) nyquist

  -- The increment of a half of the period that takes this part of it.
  abbrev pub increment : Float → Float → Float
  increment part ftw = if less ftw (times part nyquist) then over ftw part else nyquist

  -- The checks of the symmetry, the frequency and the amplitude, in this order.
  unfoldable pub try_into_config : Float → Float → BasicConfig → Result Error Config
  try_into_config sample_period full_scale basic =
      let symmetry_complement = minus (literal 1 1) basic.symmetry in
      let ftw = tuning_word basic sample_period in
      let amplitude = times basic.amplitude (over (from_i16 i16_min) (negative full_scale)) in
      if less basic.symmetry (literal 0 1) || less symmetry_complement (literal 0 1)
      then err invalid_symmetry
      else if less ftw (literal 0 1) || less nyquist (times (literal 2 1) ftw)
      then err invalid_frequency
      else if is_i16 floats signed amplitude
      then ok (record {
        amplitude = as_i16 amplitude;
        signal = basic.signal;
        phase_increment0 = as_i32 (increment basic.symmetry ftw);
        phase_increment1 = as_i32 (increment symmetry_complement ftw);
        phase_offset = as_i32 (times basic.phase (from_nat 4294967296));
      })
      else err invalid_amplitude
