-- ===== src/Hardware/Tests/Signals.antt =====
-- A waveform of 1 kHz, a capture channel, a batch of eight, and codes of the DAC, on which the
-- theorems of the hardware run.
use stabilizer.Prelude.{
  ℕ, ◌+◌, ◌-◌, ◌≡◌, ◌||◌, refl, arith, ltb, min, Bool, true, false, [], ◌∷◌, none, some,
}
use stabilizer.Prelude.Results.{ok, err}
use stabilizer.Hardware.Codes.{dac_code, dac_to_i16, dac_full_scale, saturating_add}
use stabilizer.Hardware.Codes.Order.{less_i16, dac_code-Agrees}
use stabilizer.Hardware.SignalGenerator.{
  Sources, SignalGenerator, Config, triangle, update_waveform, next_value,
}
use stabilizer.Hardware.SignalGenerator.Conversion.{BasicConfig, try_into_config}
use stabilizer.Hardware.SignalGenerator.Conversion.Bounds.{Advances, next_value-Advances}
use stabilizer.Hardware.Stampers.{CapturesBatches, new_timestamper, new_timestamper-CapturesBatches}
use stabilizer.Hardware.Tests.Fixed.{fixed, signed_fixed, fixed_forward}
use stabilizer.Hardware.Timers.{HalTimer, Timer, ChannelRegisters, CaptureHardware, latest_capture}
use stabilizer.Hardware.Timers.Captures.{CaptureLaws, IsClear, latest_capture-IsClear}

dac_code-Agrees_example :
    (dac_to_i16 (dac_code 65535) ≡ 65535)
    × (ltb (dac_code 65535).dac_word (dac_code 1).dac_word ≡ less_i16 65535 1)
    × ((dac_code (saturating_add 65535 1)).dac_word
        ≡ min ((dac_code 65535).dac_word + (dac_code 1).dac_word - 32768) 65535)
dac_code-Agrees_example = dac_code-Agrees 65535 1 (omega arith) (omega arith)

abbrev pub counting : Sources
counting = record { Rng = ℕ; seeded = 0; next_u32 = λ n. (n + 1, n); cosine_of = λ phase. phase }

-- 1 kHz at 781.25 kHz, of one volt.
abbrev basic : BasicConfig fixed signed_fixed
basic = record {
  signal = triangle;
  frequency = fixed.literal 1000 1;
  symmetry = fixed.literal 1 2;
  amplitude = fixed.literal 1 1;
  phase = fixed.literal 0 1;
}

abbrev period : fixed.Float
period = fixed.literal 128 100000000

abbrev config : Config
config = record {
  signal = triangle;
  amplitude = 3200;
  phase_increment0 = 5497554;
  phase_increment1 = 5497554;
  phase_offset = 0;
}

accepted :
    try_into_config fixed signed_fixed period (dac_full_scale fixed signed_fixed) basic ≡ ok config
unfolding try_into_config
accepted = refl

abbrev generator : SignalGenerator counting
generator = record {
  phase_accumulator = 4294967295;
  config = record {
    signal = triangle;
    amplitude = 0;
    phase_increment0 = 0;
    phase_increment1 = 0;
    phase_offset = 0;
  };
  rng = 0;
}

next_value-Advances_example :
    Advances fixed_forward counting generator
      (next_value counting (update_waveform counting config generator)).0
next_value-Advances_example =
    next_value-Advances fixed_forward counting period (dac_full_scale fixed signed_fixed) basic
      config generator accepted

-- A capture is its flag, the over-capture and the value.
abbrev pub register : CaptureHardware
register = record {
  State = Bool × Bool × ℕ;
  is_captured = λ s. s.0;
  read_value = λ s. ((false, s.1, s.2), s.2);
  is_overcaptured = λ s. s.1;
  clear_overcapture = λ s. (s.0, false, s.2);
}

abbrev register_laws : CaptureLaws register
register_laws = record {
  capture = λ v s. (true, s.1 || s.0, v);
  value = λ s. s.2;
  is_captured-capture = λ v s. refl;
  is_overcaptured-capture = λ v s. refl;
  value-capture = λ v s. refl;
  read_value_lem = λ s. (refl, refl, refl);
  clear_lem = λ s. (refl, refl);
}

latest_capture-IsClear_example :
    ((latest_capture register (true, true, 30)).1 ≡ err (some 30))
    × IsClear register register_laws (latest_capture register (true, true, 30)).0
latest_capture-IsClear_example =
    latest_capture-IsClear register register_laws (30 ∷ 20 ∷ []) (false, false, 10) (refl, refl)

abbrev pub hal : HalTimer
hal = record {
  State = ℕ;
  pause = λ n. n + 1;
  resume = λ n. n + 1;
  apply_freq = λ n. n + 1;
  reset_counter = λ n. 0;
}

abbrev pub timer : Timer hal
timer = record {
  timer = 0;
  registers = record {
    arr = 127;
    psc = 0;
    etps = 0;
    ece = false;
    ts = 0;
    sms = 0;
    mms = 0;
    ude = false;
  };
  channels = true;
  update_event = true;
}

abbrev pub channel : ChannelRegisters
channel = record {
  ccr = 0;
  selection = none;
  input_filter = 0;
  input_prescaler = 0;
  is_enabled = false;
  dma_enabled = false;
}

new_timestamper-CapturesBatches_example :
    CapturesBatches register hal 8
      (new_timestamper register hal timer channel (false, false, 0) timer 8)
new_timestamper-CapturesBatches_example =
    new_timestamper-CapturesBatches register hal timer timer channel (false, false, 0) 8
