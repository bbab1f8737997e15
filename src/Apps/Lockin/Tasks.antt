-- ===== src/Apps/Lockin/Tasks.antt =====
-- src/bin/lockin.rs: the tasks around the processing. The pins of the amplifiers are parameters.
use stabilizer.Prelude.{ℕ, ◌^◌, ◌-◌, Bool, Option, none, some}
use stabilizer.Prelude.Results.{◌>>=◌, Result, ok, err}
use stabilizer.Prelude.Floats.{Floats, SignedFloats}
use stabilizer.Hardware.Afe.{Pins, set_gain}
use stabilizer.Hardware.Codes.{DacCode, dac_to_i16, dac_from_volts}
use stabilizer.Hardware.SignalGenerator.{Config, cosine}
use stabilizer.Net.Telemetry.{TelemetryBuffer, Telemetry, finalize}
use stabilizer.Net.Telemetry
use stabilizer.Net.Users.{Parts, NetworkUsers, direct_stream}
use stabilizer.Apps.Lockin.{Dsp, Lockin, batch_size_log2}

module _ (floats : Floats) (signed : SignedFloats floats) where
  open floats use {Float, literal}

  -- The waveform of the modulation, of one volt, for the code of the amplitude.
  waveform : Result (Unit {0}) DacCode → Option Config
  waveform (err e) = none
  waveform (ok code) = some (record {
    phase_increment0 = 2 ^ (32 - batch_size_log2);
    phase_increment1 = 2 ^ (32 - batch_size_log2);
    amplitude = dac_to_i16 code;
    signal = cosine;
    phase_offset = 0;
  })

  unfoldable pub signal_config : Option Config
  unfolding waveform
  signal_config = waveform (dac_from_volts floats signed (literal 1 1))

module _ (dsp : Dsp) (pins0 pins1 : Pins) {T : Type 0} (parts : Parts (Lockin dsp) T) where
  pub record Board : Type 0 where
    pub afe0 : pins0.State
    pub afe1 : pins1.State
    pub users : NetworkUsers parts
    pub active_settings : Lockin dsp

  unfoldable pub settings_update : Lockin dsp → Board → Option Board
  settings_update settings b = do
    afe0 ← set_gain pins0 settings.afe.0 b.afe0
    afe1 ← set_gain pins1 settings.afe.1 b.afe1
    users ← direct_stream parts settings.stream_target b.users
    some (record { afe0 = afe0; afe1 = afe1; users = users; active_settings = settings })

-- A round of the task `telemetry`: the report of a buffer with the digital inputs, and the seconds
-- until the next. A temperature that cannot be read panics.
module _ (floats : Floats) (signed : SignedFloats floats) (dsp : Dsp)
    (parts : Parts (Lockin dsp) (Telemetry floats signed)) where
  unfoldable pub report :
      Lockin dsp
      → TelemetryBuffer
      → Bool × Bool
      → Option floats.Float
      → NetworkUsers parts
      → Option (NetworkUsers parts × ℕ)
  report settings buffer digital_inputs temperature u = do
    cpu_temp ← temperature
    client ←
        stabilizer.Net.Telemetry.publish parts.mqtt
          (finalize floats signed settings.afe.0 settings.afe.1 cpu_temp
            (record buffer { digital_inputs = digital_inputs }))
          u.telemetry
    some (record u { telemetry = client }, settings.telemetry_period)
