-- ===== src/Hardware/SharedAdc.antt =====
-- src/hardware/shared_adc.rs and src/hardware/cpu_temp_sensor.rs: an ADC whose channels are shared,
-- and the temperature of the CPU from one of them. The converter of the HAL and the calibration
-- words of the chip are parameters; `none` is the panic of an `unwrap`.
use stabilizer.Prelude.{ℕ, Bool, false, Option, some, if◌then◌else◌}
use stabilizer.Prelude.Results.{Result, ok, err, ◌>>=◌}
use stabilizer.Prelude.Floats.{Floats, SignedFloats}

pub data AdcError : Type 0 where
  in_use : AdcError

-- A conversion of a pin, which can fail.
pub record Converter : Type 1 where
  pub State : Type 0
  pub Pin : Type 0
  pub read : Pin → State → State × Option ℕ

module _ (floats : Floats) (converter : Converter) where
  open floats use {Float, literal, from_nat, times, over}
  open converter use {Pin}

  -- The ADC in its mutex, and whether that is locked.
  pub record SharedAdc : Type 0 where
    pub slope : Float
    pub adc : converter.State
    pub locked : Bool

  abbrev pub new_shared : Float → converter.State → SharedAdc
  new_shared slope adc = record { slope = slope; adc = adc; locked = false }

  pub record AdcChannel : Type 0 where
    pub pin : Pin
    pub slope : Float

  abbrev pub create_channel : Pin → SharedAdc → AdcChannel
  create_channel pin a = record { pin = pin; slope = a.slope }

  -- A channel reads if no one holds the mutex, which is free again at the end.
  unfoldable pub read_raw : AdcChannel → SharedAdc → Option (SharedAdc × Result AdcError ℕ)
  read_raw c a = if a.locked then some (a, err in_use) else (do
    let read = converter.read c.pin a.adc
    code ← read.1
    some (record a { adc = read.0 }, ok code))

  abbrev pub normalized : AdcChannel → Result AdcError ℕ → Result AdcError Float
  normalized c (ok code) = ok (over (from_nat code) c.slope)
  normalized c (err e) = err e

  unfoldable pub read_normalized :
      AdcChannel → SharedAdc → Option (SharedAdc × Result AdcError Float)
  read_normalized c a = do (a, r) ← read_raw c a; some (a, normalized c r)

  module _ (signed : SignedFloats floats) where
    open signed use {plus, minus}

    pub record Calibration : Type 0 where
      pub slope : Float
      pub offset : Float

    -- `Calibration::new`, on the words at 110 and at 30 degrees.
    unfoldable pub new_calibration : ℕ → ℕ → Calibration
    new_calibration ts_cal2 ts_cal1 =
        let slope =
          over (minus (literal 110 1) (literal 30 1))
            (minus (from_nat ts_cal2) (from_nat ts_cal1)) in
        record { slope = slope; offset = minus (literal 30 1) (times slope (from_nat ts_cal1)) }

    unfoldable pub sample_to_temperature : Calibration → ℕ → Float
    sample_to_temperature c sample =
        let sample_3v3 = over (times (from_nat sample) (literal 2048 1000)) (literal 33 10) in
        plus (times c.slope sample_3v3) c.offset

    pub record CpuTempSensor : Type 0 where
      pub sensor : AdcChannel
      pub calibration : Calibration

    unfoldable pub new_sensor : ℕ → ℕ → AdcChannel → CpuTempSensor
    new_sensor ts_cal2 ts_cal1 sensor = record {
      sensor = sensor;
      calibration = new_calibration ts_cal2 ts_cal1;
    }

    abbrev pub in_degrees : CpuTempSensor → Result AdcError ℕ → Result AdcError Float
    in_degrees t (ok raw) = ok (sample_to_temperature t.calibration raw)
    in_degrees t (err e) = err e

    unfoldable pub get_temperature :
        CpuTempSensor → SharedAdc → Option (SharedAdc × Result AdcError Float)
    get_temperature t a = do (a, r) ← read_raw t.sensor a; some (a, in_degrees t r)
