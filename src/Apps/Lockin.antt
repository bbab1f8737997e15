-- ===== src/Apps/Lockin.antt =====
-- src/bin/lockin.rs: the settings, and the processing of a batch of samples. An i32 is its bit
-- pattern. The PLL, the lowpass filters and the complex numbers of idsp, and the hardware of the
-- timestamps, are parameters. `none` is a panic.
pub mod Stream
pub mod Tasks
pub mod Tests
use stabilizer.Prelude.{
  ℕ, ◌*◌, ◌/◌, ◌^◌, ◌-◌, ◌+◌, Bool, List, [], ◌∷◌, Option, none, some, u16, u32,
}
use stabilizer.Prelude.Results.{◌>>=◌, Result, ok, err}
use stabilizer.Hardware.Afe.{Gain, g1}
use stabilizer.Hardware.Codes.{dac_code}
use stabilizer.Hardware.SignalGenerator.{
  Sources, SignalGenerator, next_value, shift_right, sign_extend,
}
use stabilizer.Hardware.Stampers.{latest_timestamp}
use stabilizer.Hardware.Timers.{CaptureHardware, InputCapture}
use stabilizer.Net.DataStream.{Pool, Queue, StreamFrame, FrameGenerator, add}
use stabilizer.Net.DataStream.Transmit.{StreamTarget, default_target}
use stabilizer.Net.Telemetry.{TelemetryBuffer}
use stabilizer.Apps.Streaming.{sample_batch, buffers_of, measured, first}

abbrev pub batch_size_log2 : ℕ
batch_size_log2 = 3

pub data Conf : Type 0 where
  magnitude phase reference_frequency log_power in_phase quadrature modulation : Conf

pub data LockinMode : Type 0 where
  internal external : LockinMode

-- A complex i32 by its parts.
abbrev pub Complex : Type 0
Complex = ℕ × ℕ

-- The gains of the lowpass filters, `[i32; 2]`.
abbrev pub Coefficients : Type 0
Coefficients = ℕ × ℕ

-- The PLL gives a phase and a frequency; `accu` starts at a phase with an increment.
pub record Dsp : Type 1 where
  pub Pll : Type 0
  pub pll_update : Option ℕ → ℕ → ℕ → Pll → Pll × (ℕ × ℕ)
  pub Demodulator : Type 0
  pub demodulate : ℕ → ℕ → Coefficients → Demodulator → Demodulator × Complex
  pub Accu : Type 0
  pub accu : ℕ → ℕ → Accu
  pub next_phase : Accu → Accu × ℕ
  pub abs_sqr : Complex → ℕ
  pub arg : Complex → ℕ
  pub log2 : Complex → ℕ

module _ (dsp : Dsp) where
  open dsp use {Pll, Demodulator, Accu}

  pub record Lockin : Type 0 where
    pub afe : Gain × Gain
    pub lockin_mode : LockinMode
    pub pll_tc : ℕ × ℕ
    pub lockin_k : Coefficients
    pub lockin_harmonic : ℕ
    pub lockin_phase : ℕ
    pub output_conf : Conf × Conf
    pub telemetry_period : ℕ
    pub stream_target : StreamTarget

  -- `Lockin::default`, with -1 for the harmonic.
  abbrev pub default_lockin : Lockin
  default_lockin = record {
    afe = (g1, g1);
    lockin_mode = external;
    pll_tc = (21, 21);
    lockin_k = (0x80000, 4294967296 - 0x4000000);
    lockin_harmonic = 4294967295;
    lockin_phase = 0;
    output_conf = (in_phase, quadrature);
    telemetry_period = 10;
    stream_target = default_target;
  }

  -- `unwrap_or(None)`: the timestamps of an over-capture are ignored.
  abbrev pub timestamp_of : Result (Option ℕ) (Option ℕ) → Option ℕ
  timestamp_of (ok t) = t
  timestamp_of (err t) = none

  -- The loop over the samples with their phases; it gives the last output, or `before` where there
  -- are no samples.
  unfoldable pub demodulate_all :
      Coefficients → List ℕ → Accu → Option Complex → Demodulator → Demodulator × Option Complex
  demodulate_all k [] phases before d = (d, before)
  demodulate_all k (sample ∷ samples) phases before d =
      let (phases, lo) = dsp.next_phase phases in
      let (d, output) = dsp.demodulate (u32 (sample * 65536)) lo k d in
      demodulate_all k samples phases (some output) d

  -- Twice a complex number.
  abbrev pub doubled : Complex → Complex
  doubled (re, im) = (u32 (re * 2), u32 (im * 2))

  module _ (sources : Sources) where
    -- A value of the output, before it is cast to i16.
    unfoldable pub output_value :
        Conf → Complex → ℕ → SignalGenerator sources → SignalGenerator sources × ℕ
    output_value magnitude output frequency g = (g, shift_right (u32 (dsp.abs_sqr output)) 65536)
    output_value phase output frequency g = (g, shift_right (dsp.arg output) 65536)
    output_value log_power output frequency g = (g, u32 (dsp.log2 output * 256))
    output_value reference_frequency output frequency g = (g, shift_right frequency 65536)
    output_value in_phase output frequency g = (g, shift_right output.0 65536)
    output_value quadrature output frequency g = (g, shift_right output.1 65536)
    output_value modulation output frequency g =
        let (g, value) = next_value sources g in (g, sign_extend value)

    -- The codes of a channel, one for each place of its buffer.
    unfoldable pub fill_channel :
        Conf → Complex → ℕ → List ℕ → SignalGenerator sources → SignalGenerator sources × List ℕ
    fill_channel conf output frequency [] g = (g, [])
    fill_channel conf output frequency (_ ∷ samples) g =
        let (g, value) = output_value conf output frequency g in
        let (g, codes) = fill_channel conf output frequency samples g in
        (g, (dac_code (u16 value)).dac_word ∷ codes)

    module _ (hardware : CaptureHardware) where
      pub record Processing (P Q : Type 0) : Type 0 where
        pub telemetry : TelemetryBuffer
        pub timestamper : InputCapture hardware
        pub pll : Pll
        pub demodulator : Demodulator
        pub signal_generator : SignalGenerator sources
        pub generator : FrameGenerator
        pub free : P
        pub queued : Q

      -- The phase and the frequency of the reference.
      unfoldable pub reference :
          {P Q : Type 0} → Lockin → LockinMode → Processing P Q → Processing P Q × (ℕ × ℕ)
      reference settings external p =
          let (timestamper, result) = latest_timestamp hardware p.timestamper in
          let (pll, (pll_phase, pll_frequency)) =
            dsp.pll_update (timestamp_of result) settings.pll_tc.0 settings.pll_tc.1 p.pll in
          (
            record p { timestamper = timestamper; pll = pll },
            (pll_phase, pll_frequency / 2 ^ batch_size_log2),
          )
      reference settings internal p = (p, (1073741824, 2 ^ (32 - batch_size_log2)))

      -- The reference and the demodulation of a batch: the frequency of the reference and the
      -- output.
      unfoldable pub demodulated :
          {P Q : Type 0} → Lockin → List ℕ → Processing P Q → Processing P Q × (ℕ × Option Complex)
      unfolding reference demodulate_all
      demodulated settings samples p =
          let (p, (phase_in, frequency_in)) = reference settings settings.lockin_mode p in
          let sample_frequency = u32 (frequency_in * settings.lockin_harmonic) in
          let sample_phase =
            u32 (settings.lockin_phase + u32 (phase_in * settings.lockin_harmonic)) in
          let (d, output) =
            demodulate_all settings.lockin_k samples (dsp.accu sample_phase sample_frequency) none
              p.demodulator in
          (record p { demodulator = d }, (frequency_in, output))

      module _ (pool : Pool) (queue : Queue StreamFrame) where
        -- `process`, on the buffers of the batch. It gives the outputs.
        unfoldable pub process :
            Lockin
            → List ℕ × List ℕ
            → List ℕ × List ℕ
            → Processing pool.State queue.State
            → Option (Processing pool.State queue.State × (List ℕ × List ℕ))
        process settings adcs dacs p = do
          let made = demodulated settings adcs.0 p
          let p = made.0
          let frequency = made.1.0
          last ← made.1.1
          let output = doubled last
          let filled0 =
              fill_channel settings.output_conf.0 output frequency dacs.0 p.signal_generator
          let filled1 = fill_channel settings.output_conf.1 output frequency dacs.1 filled0.0
          (generator, free, queued) ←
              add pool queue (sample_batch (buffers_of adcs (filled0.1, filled1.1))) p.generator
                p.free p.queued
          a0 ← first adcs.0
          a1 ← first adcs.1
          d0 ← first filled0.1
          d1 ← first filled1.1
          some (
            record p {
              telemetry = measured p.telemetry.digital_inputs (a0, a1) (d0, d1);
              signal_generator = filled1.0;
              generator = generator;
              free = free;
              queued = queued;
            },
            (filled0.1, filled1.1),
          )
