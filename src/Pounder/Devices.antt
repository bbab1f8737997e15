-- ===== src/Pounder/Devices.antt =====
-- src/hardware/pounder/mod.rs: `PounderDevices`. The SPI bus, the ADC channels and the temperature
-- sensor are parameters beside the drivers of the GPIO extender.
pub mod Startup
use stabilizer.Prelude.{ℕ, Bool, true, false, List, [], ◌∷◌, Option, none, some, if◌then◌else◌}
use mathlib.Core.Option
use stabilizer.Prelude.Results.{Result, ok, err}
use stabilizer.Prelude.Effects.{Action, pure, fail, map_err, ◌>>=◌, ◌>>◌}
use stabilizer.Prelude.Floats.{Floats}
use stabilizer.Pounder.{Channel, in0, in1}
use stabilizer.Pounder.Qspi.{Error, i2c, spi, invalid_channel}
use stabilizer.Pounder.Gpio.{
  GpioPin, dds_reset, att_rst_n, osc_en_n, ext_clk_sel, all_pins, latch_pin, Level, low, high,
  output, Expanders, IoExpander, new_expander, set_gpio_level, set_gpio_dir,
}
use stabilizer.Pounder.Attenuators.{AttenuatorInterface}

-- `read_normalized` gives nothing where it fails.
pub record Hardware (F : Type 0) : Type 1 where
  pub QspiFault : Type 0
  pub expanders : Expanders
  pub spi_transfer : List ℕ → Action expanders.State expanders.Fault (List ℕ)
  pub read_pwr0 : expanders.State → expanders.State × Option F
  pub read_pwr1 : expanders.State → expanders.State × Option F
  pub read_aux0 : expanders.State → expanders.State × Option F
  pub read_aux1 : expanders.State → expanders.State × Option F
  pub read_temperature : Action expanders.State expanders.Fault F

module _ (floats : Floats) (hardware : Hardware floats.Float) where
  open floats use {Float, literal, times}
  open hardware use {QspiFault, expanders}
  open expanders use {State, Fault}

  pub record PounderDevices : Type 0 where
    pub hw : State
    pub io : IoExpander

  abbrev Step : Type 0 → Type 0
  Step A = Action PounderDevices (Error QspiFault) A

  abbrev pub set_level : GpioPin → Level → Step (Unit {0})
  set_level pin level d =
      let (h, r) = set_gpio_level expanders d.io pin level d.hw in (record d { hw = h }, r)

  abbrev pub set_dir_output : GpioPin → Step (Unit {0})
  set_dir_output pin d =
      let (h, r) = set_gpio_dir expanders d.io pin output d.hw in (record d { hw = h }, r)

  unfoldable pub reset_attenuators : Step (Unit {0})
  reset_attenuators = do set_level att_rst_n low; set_level att_rst_n high

  unfoldable pub latch_attenuator : Channel → Step (Unit {0})
  latch_attenuator channel = do
    set_level (latch_pin channel) low
    set_level (latch_pin channel) high

  unfoldable pub transfer_attenuators : List ℕ → Step (List ℕ)
  transfer_attenuators channels d =
      let (h, r) = map_err (λ _. spi) (hardware.spi_transfer channels) d.hw in
      (record d { hw = h }, r)

  abbrev pub attenuators : AttenuatorInterface QspiFault
  attenuators = record {
    State = PounderDevices;
    reset_attenuators = reset_attenuators;
    latch_attenuator = latch_attenuator;
    transfer_attenuators = transfer_attenuators;
  }

  unfoldable pub reset_dds : Step (Unit {0})
  reset_dds = do set_level dds_reset high; set_level dds_reset low

  abbrev level_of : Bool → Level
  level_of true = high
  level_of false = low

  unfoldable pub set_ext_clk : Bool → Step (Unit {0})
  set_ext_clk enabled = do
    set_level osc_en_n (level_of enabled)
    set_level ext_clk_sel (level_of enabled)

  -- The loop of `new` over the pins.
  unfoldable pub clear_pins : List GpioPin → Step (Unit {0})
  clear_pins [] = pure tt
  clear_pins (pin ∷ pins) = do set_level pin low; set_dir_output pin; clear_pins pins

  -- `adc.read_normalized().unwrap()` in volts of the reference.
  volts :
      PounderDevices
      → State × Option Float
      → Option (PounderDevices × Result (Error QspiFault) Float)
  volts d (h, none) = none
  volts d (h, some scale) = some (record d { hw = h }, ok (times scale (literal 2048 1000)))

  unfoldable pub sample_aux_adc :
      Channel → PounderDevices → Option (PounderDevices × Result (Error QspiFault) Float)
  unfolding volts
  sample_aux_adc in0 d = volts d (hardware.read_aux0 d.hw)
  sample_aux_adc in1 d = volts d (hardware.read_aux1 d.hw)
  sample_aux_adc _ d = some (d, err invalid_channel)

  unfoldable pub sample_converter :
      Channel → PounderDevices → Option (PounderDevices × Result (Error QspiFault) Float)
  unfolding volts
  sample_converter in0 d = volts d (hardware.read_pwr0 d.hw)
  sample_converter in1 d = volts d (hardware.read_pwr1 d.hw)
  sample_converter _ d = some (d, err invalid_channel)

  unfoldable pub temperature : Step Float
  temperature d =
      let (h, r) = map_err (λ _. i2c) hardware.read_temperature d.hw in (record d { hw = h }, r)
