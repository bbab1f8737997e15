-- ===== src/Apps/DualIir/Tasks.antt =====
-- src/bin/dual-iir.rs: the tasks around the processing. The DACs of the CPU and of the GPIO, and the
-- pins of the amplifiers, are parameters.
pub mod Applies
use stabilizer.Prelude.{
  ℕ, if◌then◌else◌, Bool, true, false, List, [], ◌∷◌, Option, none, some, ◌&&◌,
}
use stabilizer.Prelude.Results.{◌>>=◌, Result, ok, err}
use stabilizer.Prelude.Floats.{Floats, SignedFloats}
use stabilizer.Hardware.Afe.{Pins, set_gain}
use stabilizer.Hardware.Codes.{dac_full_scale}
use stabilizer.Hardware.SignalGenerator.{Sources, SignalGenerator, Config, new, update_waveform}
use stabilizer.Hardware.SignalGenerator.Conversion.{BasicConfig, Error, try_into_config}
use stabilizer.Net.Telemetry.{TelemetryBuffer, Telemetry, finalize}
use stabilizer.Net.Telemetry
use stabilizer.Net.Users.{
  Parts, NetworkUsers, NetworkState, settings_changed, net_updated, net_unchanged, direct_stream,
}
use stabilizer.Apps.DualIir.{Filters, DualIir}

-- A write of the GPIO DAC tells whether it succeeded; the state of an amplifier is that of its pins.
pub record Outputs : Type 1 where
  pub afe0 : Pins
  pub afe1 : Pins
  pub CpuDac : Type 0
  pub set_value : ℕ → CpuDac → CpuDac
  pub GpioDac : Type 0
  pub write : List ℕ → GpioDac → GpioDac × Bool

-- What `idle` does after a round of the network.
pub data Idle : Type 0 where
  update_settings sleep go_on : Idle

-- A round of `idle`; whether the USB device is suspended is read when nothing has changed.
abbrev pub idle : NetworkState → Bool → Idle
idle settings_changed suspended = update_settings
idle net_updated suspended = go_on
idle net_unchanged suspended = if suspended then sleep else go_on

module _ (floats : Floats) (signed : SignedFloats floats) (filters : Filters floats)
    (sources : Sources) where
  open floats use {Float, literal, from_nat, over, times}

  -- `SAMPLE_PERIOD`, of 128 ticks of 100 MHz.
  abbrev pub sample_period : Float
  sample_period = times (from_nat 128) (over (literal 1 1) (from_nat 100000000))

  abbrev pub converted : BasicConfig floats signed → Result Error Config
  converted basic = try_into_config floats signed sample_period (dac_full_scale floats signed) basic

  -- `.unwrap()` of a configuration, and the generators that `init` makes.
  started : Result Error Config → Option (SignalGenerator sources)
  started (ok config) = some (new sources config)
  started (err e) = none

  unfoldable pub initial_generators :
      DualIir floats signed filters → Option (SignalGenerator sources × SignalGenerator sources)
  unfolding started
  initial_generators settings = do
    g0 ← started (converted settings.signal_generator.0)
    g1 ← started (converted settings.signal_generator.1)
    some (g0, g1)

  -- A configuration that is not valid is only logged.
  abbrev pub updated_generator :
      Result Error Config → SignalGenerator sources → SignalGenerator sources
  updated_generator (ok config) g = update_waveform sources config g
  updated_generator (err e) g = g

  module _ (outputs : Outputs) {T : Type 0} (parts : Parts (DualIir floats signed filters) T) where
    pub record Board : Type 0 where
      pub afe0 : outputs.afe0.State
      pub afe1 : outputs.afe1.State
      pub cpu_dac1 : outputs.CpuDac
      pub gpio_dac : outputs.GpioDac
      pub signal_generator : SignalGenerator sources × SignalGenerator sources
      pub users : NetworkUsers parts
      pub active_settings : DualIir floats signed filters

    -- The board, with its amplifiers and its stream set.
    abbrev pub updated :
        DualIir floats signed filters
        → Board
        → outputs.afe0.State
        → outputs.afe1.State
        → NetworkUsers parts
        → Board
    updated settings b afe0 afe1 users = record {
      afe0 = afe0;
      afe1 = afe1;
      cpu_dac1 = outputs.set_value settings.cpu_dac1 b.cpu_dac1;
      gpio_dac = (outputs.write (settings.frontend_offset ∷ []) b.gpio_dac).0;
      signal_generator = (
        updated_generator (converted settings.signal_generator.0) b.signal_generator.0,
        updated_generator (converted settings.signal_generator.1) b.signal_generator.1,
      );
      users = users;
      active_settings = settings;
    }

    -- `settings_update`. A failure of the GPIO DAC is only logged.
    unfoldable pub settings_update : DualIir floats signed filters → Board → Option Board
    settings_update settings b = do
      afe0 ← set_gain outputs.afe0 settings.afe.0 b.afe0
      afe1 ← set_gain outputs.afe1 settings.afe.1 b.afe1
      users ← direct_stream parts settings.stream_target b.users
      some (updated settings b afe0 afe1 users)

  -- A round of the task `telemetry`: the report of a buffer, with the seconds until the next. A
  -- temperature that cannot be read panics.
  module _ (parts : Parts (DualIir floats signed filters) (Telemetry floats signed)) where
    unfoldable pub report :
        DualIir floats signed filters
        → TelemetryBuffer
        → Option Float
        → NetworkUsers parts
        → Option (NetworkUsers parts × ℕ)
    report settings buffer temperature u = do
      cpu_temp ← temperature
      client ←
          stabilizer.Net.Telemetry.publish parts.mqtt
            (finalize floats signed settings.afe.0 settings.afe.1 cpu_temp buffer) u.telemetry
      some (record u { telemetry = client }, settings.telemetry_period)
