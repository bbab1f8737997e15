-- ===== src/Pounder/Devices/Startup.antt =====
-- src/hardware/pounder/mod.rs: `PounderDevices::new`.
pub mod Initial
use stabilizer.Prelude.{Option, none, some}
use stabilizer.Prelude.Results.{Result, ok, err, ◌>>=◌}
use stabilizer.Prelude.Floats.{Floats}
use stabilizer.Pounder.Qspi.{Error}
use stabilizer.Pounder.Gpio.{all_pins, new_expander}
use stabilizer.Pounder.Devices.{Hardware, PounderDevices, clear_pins, reset_attenuators, reset_dds}

module _ (floats : Floats) (hardware : Hardware floats.Float) where
  open hardware use {QspiFault, expanders}
  open expanders use {State}

  abbrev Devices : Type 0
  Devices = PounderDevices floats hardware

  -- `call.unwrap()`.
  abbrev unwrap : Devices × Result (Error QspiFault) (Unit {0}) → Option Devices
  unwrap (d, ok _) = some d
  unwrap (d, err e) = none

  reset_all :
      Devices × Result (Error QspiFault) (Unit {0})
      → Option (Devices × Result (Error QspiFault) (Unit {0}))
  reset_all (d, err e) = some (d, err e)
  reset_all (d, ok _) = do
    d ← unwrap (reset_attenuators floats hardware d)
    d ← unwrap (reset_dds floats hardware d)
    some (d, ok tt)

  -- The devices with their result; the devices are dropped after an error. `none` is a panic.
  unfoldable pub new : State → Option (Devices × Result (Error QspiFault) (Unit {0}))
  unfolding reset_all
  new s = do
    (s, io) ← new_expander expanders s
    reset_all (clear_pins floats hardware all_pins (record { hw = s; io = io }))
