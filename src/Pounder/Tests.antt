-- ===== src/Pounder/Tests.antt =====
-- An extender that is its pins, and attenuators that are a shift chain, meet their contracts.
use stabilizer.Prelude.{ℕ, ◌≡◌, true, [], ◌∷◌, some, none, refl, arith, get_or, ◌≤◌}
use stabilizer.Prelude.Results.{ok, err}
use stabilizer.Ad9959.Driver.Tests.{fractions}
use stabilizer.Pounder.{Channel, out0, channel_index}
use stabilizer.Pounder.Gpio.{low, input, pca, Expanders, new_expander}
use stabilizer.Pounder.Gpio.Pins.{
  Pins, PinsAnswer, with_level, with_direction, mcp_number, pca_number, from_pca_level,
  from_pca_direction,
}
use stabilizer.Pounder.Devices.{Hardware, PounderDevices}
use stabilizer.Pounder.Devices.Startup.{new}
use stabilizer.Pounder.Devices.Startup.Initial.{IsInitial, new-IsInitial}
use stabilizer.Pounder.Attenuators.{AttenuatorInterface}
use stabilizer.Pounder.Attenuators.ShiftChain.{
  Attenuators, ShiftChain, latched, Programs, set_attenuation-Programs, ReadsZeros,
  get_attenuation-ReadsZeros,
}
use stabilizer.Pounder.HrTimer.{Pulse, single_shot}
use stabilizer.Pounder.HrTimer.Resolution.{IsFinest, single_shot-IsFinest}

abbrev expanders : Expanders
expanders = record {
  State = Pins;
  Fault = Unit {0};
  mcp_new_default = λ s. (s, true);
  pca_new_default = λ s. (s, true);
  mcp_read = λ n s. (s, err tt);
  mcp_set_gpio = λ pin level s. (with_level (mcp_number pin) level s, ok tt);
  mcp_set_direction = λ pin dir s. (with_direction (mcp_number pin) dir s, ok tt);
  pca_set_level = λ pin level s. (with_level (pca_number pin) (from_pca_level level) s, ok tt);
  pca_set_direction =
      λ pin dir s. (with_direction (pca_number pin) (from_pca_direction dir) s, ok tt);
}

abbrev hardware : Hardware (ℕ × ℕ)
hardware = record {
  QspiFault = Unit {0};
  expanders = expanders;
  spi_transfer = λ bytes s. (s, ok bytes);
  read_pwr0 = λ s. (s, none);
  read_pwr1 = λ s. (s, none);
  read_aux0 = λ s. (s, none);
  read_aux1 = λ s. (s, none);
  read_temperature = λ s. (s, err tt);
}

abbrev pins : PinsAnswer expanders
pins = record {
  view = λ s. s;
  mcp_level_lem = λ pin level s. (with_level (mcp_number pin) level s, refl, refl);
  mcp_direction_lem = λ pin dir s. (with_direction (mcp_number pin) dir s, refl, refl);
  pca_level_lem = λ pin level s. (with_level (pca_number pin) (from_pca_level level) s, refl, refl);
  pca_direction_lem =
      λ pin dir s. (with_direction (pca_number pin) (from_pca_direction dir) s, refl, refl);
}

abbrev powered : Pins
powered = record { level = λ n. low; direction = λ n. input }

found_pca : new_expander expanders powered ≡ some (powered, pca)
unfolding new_expander
found_pca = refl

new-IsInitial_example :
    (d : PounderDevices fractions hardware) × (new fractions hardware powered ≡ some (d, ok tt))
    × IsInitial d.hw
new-IsInitial_example = new-IsInitial fractions hardware pins powered powered pca found_pca

abbrev device : AttenuatorInterface (Unit {0})
device = record {
  State = Attenuators;
  reset_attenuators = λ s. (s, ok tt);
  latch_attenuator = λ channel s. (latched channel s, ok tt);
  transfer_attenuators = λ bytes s. (record s { shift = bytes }, ok s.shift);
}

abbrev chain : ShiftChain device
chain = record {
  view = λ s. s;
  transfer_lem = λ bytes s h. (record s { shift = bytes }, refl, refl);
  latch_lem = λ channel s. (latched channel s, refl, refl);
}

abbrev at_reset : Attenuators
at_reset = record { shift = 255 ∷ 255 ∷ 255 ∷ 255 ∷ []; outputs = λ k. 255 }

reset_outputs : (k : Channel) → 255 ≡ get_or at_reset.shift (channel_index k) 0
reset_outputs Channel.in0 = refl
reset_outputs Channel.out0 = refl
reset_outputs Channel.in1 = refl
reset_outputs Channel.out1 = refl

set_attenuation-Programs_example : Programs fractions device chain out0 (105, 10) at_reset
set_attenuation-Programs_example =
    set_attenuation-Programs fractions device chain out0 (105, 10) at_reset refl (omega arith)
      (refl, reset_outputs)

get_attenuation-ReadsZeros_example : ReadsZeros fractions device chain out0 at_reset
get_attenuation-ReadsZeros_example =
    get_attenuation-ReadsZeros fractions device chain out0 at_reset refl

-- A pulse of 100000 cycles needs the clock divided by 2.
abbrev pulse : Pulse
pulse = record { prescaler = 6; period = 50000; comparator = 10 }

long_pulse : single_shot 100000 10 ≡ some pulse
unfolding single_shot
long_pulse = refl

single_shot-IsFinest_example : IsFinest 100000 pulse × (pulse.comparator ≡ 10) × (3 ≤ 10)
single_shot-IsFinest_example = single_shot-IsFinest 100000 10 pulse long_pulse
