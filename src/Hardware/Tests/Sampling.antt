-- ===== src/Hardware/Tests/Sampling.antt =====
-- The sampling of both applications: a period of 128 ticks and batches of eight samples.
use stabilizer.Prelude.{◌≡◌, refl, arith, false, some}
use stabilizer.Hardware.Codes.{dac_code, dac_from_volts}
use stabilizer.Hardware.Sampling.{
  DmaConfig, Samplers, SamplingHardware, default_priority, set_up_sampling,
}
use stabilizer.Hardware.Sampling.Ordering.{IsOrdered, set_up_sampling-IsOrdered}
use stabilizer.Hardware.Tests.Fixed.{fixed, signed_fixed}
use stabilizer.Hardware.Tests.Signals.{hal, timer, channel}

abbrev unset : DmaConfig
unset = record {
  priority = default_priority;
  circular_buffer = false;
  memory_increment = false;
  peripheral_increment = false;
  double_buffer = false;
  transfer_complete_interrupt = false;
}

abbrev hardware : SamplingHardware unset fixed signed_fixed hal
hardware = record {
  sampling_timer = timer;
  shadow_sampling_timer = timer;
  ch1 = channel;
  ch2 = channel;
  ch3 = channel;
  ch4 = channel;
  shadow_ch1 = channel;
  shadow_ch2 = channel;
}

set_up_sampling-IsOrdered_example :
    (s : Samplers unset fixed signed_fixed hal) × (set_up_sampling unset fixed signed_fixed hal 8
        128 hardware
      ≡ some s)
    × IsOrdered unset fixed signed_fixed hal 128 8 (dac_code 0).dac_word s
unfolding dac_from_volts
set_up_sampling-IsOrdered_example =
    set_up_sampling-IsOrdered unset fixed signed_fixed hal 8 128 (dac_code 0) hardware (omega arith)
      (omega arith) (omega arith) refl refl
