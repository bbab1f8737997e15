-- ===== src/Pounder/RfPower.antt =====
-- src/hardware/pounder/rf_power.rs: the power of an input in dBm.
use stabilizer.Prelude.{Option, some}
use stabilizer.Prelude.Results.{Result, ok, err, ◌>>=◌}
use stabilizer.Prelude.Floats.{Floats, SignedFloats}
use stabilizer.Pounder.{Channel}
use stabilizer.Pounder.Qspi.{Error}
use stabilizer.Pounder.Devices.{Hardware, PounderDevices, sample_converter}

module _ (floats : Floats) (signed : SignedFloats floats) (hardware : Hardware floats.Float) where
  open floats use {Float, literal, times, over}
  open signed use {plus, negative}

  -- 51.7 mV/dB, with an intercept of -58 dBm behind a tap of 20 dB.
  unfoldable pub dbm : Float → Float
  dbm analog =
      plus (times analog (over (literal 1 1) (literal 517 10000)))
        (plus (negative (literal 58 1)) (literal 20 1))

  abbrev pub in_dbm :
      Result (Error hardware.QspiFault) Float → Result (Error hardware.QspiFault) Float
  in_dbm (ok analog) = ok (dbm analog)
  in_dbm (err e) = err e

  unfoldable pub measure_power :
      Channel
      → PounderDevices floats hardware
      → Option (PounderDevices floats hardware × Result (Error hardware.QspiFault) Float)
  measure_power channel d = do
    (d, sample) ← sample_converter floats hardware channel d
    some (d, in_dbm sample)
