-- ===== src/Apps/DualIir.antt =====
-- src/bin/dual-iir.rs: the settings, and the processing of a batch of samples. The filters of idsp,
-- f32 and the sources of the signal generators are parameters. `none` is a panic.
pub mod Batches
pub mod Reference
pub mod Runs
pub mod Returns
pub mod Follows
pub mod Stream
pub mod Tasks
pub mod Tests
use stabilizer.Prelude.{
  ℕ, zero, suc, ◌&&◌, ◌||◌, if◌then◌else◌, Bool, true, false, List, [], ◌∷◌, Option, none, some,
  replicate,
}
use stabilizer.Prelude.Results.{◌>>=◌}
use stabilizer.Prelude.Floats.{Floats, SignedFloats}
use stabilizer.Hardware.Afe.{Gain, g1}
use stabilizer.Hardware.Codes.{dac_code, saturating_add, i16_max}
use stabilizer.Hardware.SignalGenerator.{Sources, SignalGenerator, next_value}
use stabilizer.Hardware.SignalGenerator.Conversion.{BasicConfig, default_basic_config}
use stabilizer.Net.DataStream.{Pool, Queue, StreamFrame, FrameGenerator, add}
use stabilizer.Net.DataStream.Transmit.{StreamTarget, default_target}
use stabilizer.Net.Telemetry.{TelemetryBuffer}
use stabilizer.Apps.Streaming.{sample_batch, buffers_of, measured, first}

abbrev pub iir_cascade_length : ℕ
iir_cascade_length = 2

-- `iir::Biquad<f32>` and its state, and the cast of the output.
pub record Filters (floats : Floats) : Type 1 where
  pub Biquad : Type 0
  pub State : Type 0
  pub identity : Biquad
  pub hold : Biquad
  pub set_min : floats.Float → Biquad → Biquad
  pub set_max : floats.Float → Biquad → Biquad
  pub update : Biquad → State → floats.Float → State × floats.Float
  pub zero_state : State
  pub to_int_unchecked : floats.Float → ℕ

module _ (floats : Floats) (signed : SignedFloats floats) (filters : Filters floats) where
  open floats use {Float}
  open filters use {Biquad, State}

  -- A pair for an array of two channels.
  pub record DualIir : Type 0 where
    pub afe : Gain × Gain
    pub cpu_dac1 : ℕ
    pub frontend_offset : ℕ
    pub iir_ch : List Biquad × List Biquad
    pub allow_hold : Bool
    pub force_hold : Bool
    pub telemetry_period : ℕ
    pub stream_target : StreamTarget
    pub signal_generator : BasicConfig floats signed × BasicConfig floats signed

  -- `DualIir::default`.
  abbrev pub default_filter : Biquad
  default_filter =
      let limit = signed.from_i16 i16_max in
      filters.set_max limit (filters.set_min (signed.negative limit) filters.identity)

  abbrev pub default_dual_iir : DualIir
  default_dual_iir =
      let cascade = replicate iir_cascade_length default_filter in
      record {
        afe = (g1, g1);
        cpu_dac1 = 0;
        frontend_offset = 0;
        iir_ch = (cascade, cascade);
        allow_hold = false;
        force_hold = false;
        telemetry_period = 10;
        signal_generator = (default_basic_config floats signed, default_basic_config floats signed);
        stream_target = default_target;
      }

  -- The fold over the filters and their states, as many as there are of both.
  unfoldable pub cascade : Bool → List Biquad → List State → Float → List State × Float
  cascade hold [] states y = (states, y)
  cascade hold (b ∷ bs) [] y = ([], y)
  cascade hold (b ∷ bs) (s ∷ states) y =
      let (s, y) = filters.update (if hold then filters.hold else b) s y in
      let (states, y) = cascade hold bs states y in (s ∷ states, y)

  module _ (sources : Sources) where
    -- A sample of the ADC to a code of the DAC, with the states and the generator that it leaves.
    unfoldable pub convert :
        Bool
        → List Biquad
        → ℕ
        → List State × SignalGenerator sources
        → (List State × SignalGenerator sources) × ℕ
    convert hold bs sample (states, g) =
        let (states, y) = cascade hold bs states (signed.from_i16 sample) in
        let (g, signal) = next_value sources g in
        let y = saturating_add (filters.to_int_unchecked y) signal in
        ((states, g), (dac_code y).dac_word)

    -- The loop over the samples of a channel: `zip` of the inputs and the outputs.
    unfoldable pub convert_channel :
        Bool
        → List Biquad
        → List ℕ
        → List ℕ
        → List State × SignalGenerator sources
        → (List State × SignalGenerator sources) × List ℕ
    convert_channel hold bs [] outputs s = (s, outputs)
    convert_channel hold bs (x ∷ inputs) [] s = (s, [])
    convert_channel hold bs (x ∷ inputs) (_ ∷ outputs) s =
        let (s, code) = convert hold bs x s in
        let (s, codes) = convert_channel hold bs inputs outputs s in (s, code ∷ codes)

    -- What `process` keeps, with the pool and the queue of the stream.
    pub record Processing (P Q : Type 0) : Type 0 where
      pub telemetry : TelemetryBuffer
      pub channel0 : List State × SignalGenerator sources
      pub channel1 : List State × SignalGenerator sources
      pub generator : FrameGenerator
      pub free : P
      pub queued : Q

    abbrev pub is_held : DualIir → Bool × Bool → Bool
    is_held settings digital_inputs =
        settings.force_hold || (digital_inputs.1 && settings.allow_hold)

    -- The outputs, and the states of the channels, of a batch.
    unfoldable pub outputs_of :
        {P Q : Type 0}
        → DualIir
        → Bool × Bool
        → List ℕ × List ℕ
        → List ℕ × List ℕ
        → Processing P Q
        → Processing P Q × (List ℕ × List ℕ)
    outputs_of settings digital_inputs adcs dacs p =
        let hold = is_held settings digital_inputs in
        let (c0, d0) = convert_channel hold settings.iir_ch.0 adcs.0 dacs.0 p.channel0 in
        let (c1, d1) = convert_channel hold settings.iir_ch.1 adcs.1 dacs.1 p.channel1 in
        (record p { channel0 = c0; channel1 = c1 }, (d0, d1))

    module _ (pool : Pool) (queue : Queue StreamFrame) where
      -- `process`, on the digital inputs and the buffers of the batch. It gives the outputs.
      unfoldable pub process :
          DualIir
          → Bool × Bool
          → List ℕ × List ℕ
          → List ℕ × List ℕ
          → Processing pool.State queue.State
          → Option (Processing pool.State queue.State × (List ℕ × List ℕ))
      unfolding outputs_of
      process settings digital_inputs adcs dacs p = do
        let made = outputs_of settings digital_inputs adcs dacs p
        let p = made.0
        let dacs = made.1
        (generator, free, queued) ←
            add pool queue (sample_batch (buffers_of adcs dacs)) p.generator p.free p.queued
        a0 ← first adcs.0
        a1 ← first adcs.1
        d0 ← first dacs.0
        d1 ← first dacs.1
        some (
          record p {
            telemetry = measured digital_inputs (a0, a1) (d0, d1);
            generator = generator;
            free = free;
            queued = queued;
          },
          dacs,
        )
