-- ===== src/Pounder.antt =====
-- src/hardware/pounder: the RF frontend board.
pub mod DdsOutput
pub mod Qspi
pub mod Gpio
pub mod Devices
pub mod RfPower
pub mod Attenuators
pub mod HrTimer
pub mod Tests
use stabilizer.Prelude.{ℕ}

-- `Channel`, with its discriminant.
pub data Channel : Type 0 where
  in0 out0 in1 out1 : Channel

abbrev pub channel_index : Channel → ℕ
channel_index in0 = 0
channel_index out0 = 1
channel_index in1 = 2
channel_index out1 = 3
