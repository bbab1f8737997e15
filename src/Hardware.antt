-- ===== src/Hardware.antt =====
-- src/hardware: parts of the main board.
pub mod Codes
pub mod Timers
pub mod Stampers
pub mod Sampling
pub mod SharedAdc
pub mod Eeprom
pub mod Afe
pub mod SignalGenerator
pub mod Tests
