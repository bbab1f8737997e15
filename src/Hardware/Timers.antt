-- ===== src/Hardware/Timers.antt =====
-- src/hardware/timers.rs: the timers and their channels. A register field is a field of a record,
-- which a write replaces. The calls of the HAL's timer are a parameter, and so are the status and
-- capture registers, which the hardware changes. `none` is a panic.
pub mod Captures
use stabilizer.Prelude.{ℕ, leb, if◌then◌else◌, Bool, true, false, Option, none, some}
use stabilizer.Prelude.Results.{Result, ok, err}

pub data TriggerGenerator : Type 0 where
  reset enable_timer update_trigger compare_pulse ch1_compare ch2_compare : TriggerGenerator
  ch3_compare ch4_compare : TriggerGenerator

abbrev pub generator_code : TriggerGenerator → ℕ
generator_code reset = 0
generator_code enable_timer = 1
generator_code update_trigger = 2
generator_code compare_pulse = 3
generator_code ch1_compare = 4
generator_code ch2_compare = 5
generator_code ch3_compare = 6
generator_code ch4_compare = 7

pub data TriggerSource : Type 0 where
  trigger0 trigger1 trigger2 trigger3 : TriggerSource

abbrev pub source_code : TriggerSource → ℕ
source_code trigger0 = 0
source_code trigger1 = 1
source_code trigger2 = 2
source_code trigger3 = 3

pub data Prescaler : Type 0 where
  div1 div2 div4 div8 : Prescaler

abbrev pub prescaler_code : Prescaler → ℕ
prescaler_code div1 = 0
prescaler_code div2 = 1
prescaler_code div4 = 2
prescaler_code div8 = 3

pub data SlaveMode : Type 0 where
  disabled trigger_mode : SlaveMode

abbrev pub slave_code : SlaveMode → ℕ
slave_code disabled = 0
slave_code trigger_mode = 6

pub data InputFilter : Type 0 where
  div1_n1 div1_n8 : InputFilter

abbrev pub filter_code : InputFilter → ℕ
filter_code div1_n1 = 0
filter_code div1_n8 = 3

-- The timer of the HAL.
pub record HalTimer : Type 1 where
  pub State : Type 0
  pub pause : State → State
  pub resume : State → State
  pub apply_freq : State → State
  pub reset_counter : State → State

-- The fields that the timer sets: ARR, PSC, SMCR's ETPS, ECE, TS and SMS, and CR2's MMS; then the
-- DMA request of the update event in DIER.
pub record TimerRegisters : Type 0 where
  pub arr : ℕ
  pub psc : ℕ
  pub etps : ℕ
  pub ece : Bool
  pub ts : ℕ
  pub sms : ℕ
  pub mms : ℕ
  pub ude : Bool

module _ (hal : HalTimer) where
  -- `channels` and `update_event` tell what was not taken yet.
  pub record Timer : Type 0 where
    pub timer : hal.State
    pub registers : TimerRegisters
    pub channels : Bool
    pub update_event : Bool

  unfoldable pub new : hal.State → TimerRegisters → Timer
  new timer registers = record {
    timer = hal.pause timer;
    registers = registers;
    channels = true;
    update_event = true;
  }

  -- `.take().unwrap()`.
  unfoldable pub take_channels : Timer → Option Timer
  take_channels t = if t.channels then some (record t { channels = false }) else none

  unfoldable pub take_update_event : Timer → Option Timer
  take_update_event t = if t.update_event then some (record t { update_event = false }) else none

  abbrev pub get_period : Timer → ℕ
  get_period t = t.registers.arr

  unfoldable pub set_period_ticks : ℕ → Timer → Timer
  set_period_ticks period t = record t {
    registers = record (t.registers) { arr = period };
    timer = hal.apply_freq t.timer;
  }

  unfoldable pub set_external_clock : Prescaler → Timer → Timer
  set_external_clock prescaler t = record t {
    registers = record (t.registers) { etps = prescaler_code prescaler; ece = true; psc = 0 };
  }

  unfoldable pub start : Timer → Timer
  start t = record t { timer = hal.resume (hal.reset_counter (hal.apply_freq t.timer)) }

  unfoldable pub generate_trigger : TriggerGenerator → Timer → Timer
  generate_trigger source t = record t {
    registers = record (t.registers) { mms = generator_code source };
  }

  unfoldable pub set_trigger_source : TriggerSource → Timer → Timer
  set_trigger_source source t = record t {
    registers = record (t.registers) { ts = source_code source };
  }

  unfoldable pub set_slave_mode : TriggerSource → SlaveMode → Timer → Timer
  set_slave_mode source mode t = record t {
    registers = record (t.registers) { sms = slave_code mode; ts = source_code source };
  }

-- The inputs of a capture that the code selects.
pub data CaptureSource : Type 0 where
  ti4 trc : CaptureSource

-- The fields of a channel: its compare value, its selection (none is an output), its input filter and prescaler, its
-- enable bit in CCER, and its DMA request in DIER.
pub record ChannelRegisters : Type 0 where
  pub ccr : ℕ
  pub selection : Option CaptureSource
  pub input_filter : ℕ
  pub input_prescaler : ℕ
  pub is_enabled : Bool
  pub dma_enabled : Bool

unfoldable pub listen_dma : ChannelRegisters → ChannelRegisters
listen_dma c = record c { dma_enabled = true }

-- `to_output_compare`, of a timer with period `arr`.
unfoldable pub to_output_compare : ℕ → ℕ → ChannelRegisters → Option ChannelRegisters
to_output_compare arr value c =
    if leb value arr then some (record c { ccr = value; selection = none }) else none

unfoldable pub into_input_capture : CaptureSource → ChannelRegisters → ChannelRegisters
into_input_capture input c = record c { selection = some input }

unfoldable pub configure_filter : InputFilter → ChannelRegisters → ChannelRegisters
configure_filter filter c = record c { input_filter = filter_code filter }

unfoldable pub configure_prescaler : Prescaler → ChannelRegisters → ChannelRegisters
configure_prescaler prescaler c = record c { input_prescaler = prescaler_code prescaler }

-- The status bits of a capture, the read of its value, and a write of the status that clears the
-- over-capture.
pub record CaptureHardware : Type 1 where
  pub State : Type 0
  pub is_captured : State → Bool
  pub read_value : State → State × ℕ
  pub is_overcaptured : State → Bool
  pub clear_overcapture : State → State

module _ (hardware : CaptureHardware) where
  open hardware use {State}

  pub record InputCapture : Type 0 where
    pub registers : ChannelRegisters
    pub status : State

  -- What is done about the over-capture once a value is read.
  abbrev pub checked_overcapture : State × ℕ → State × Result (Option ℕ) (Option ℕ)
  checked_overcapture (s, value) =
      if hardware.is_overcaptured s
      then (hardware.clear_overcapture s, err (some value))
      else (s, ok (some value))

  unfoldable pub latest_capture : State → State × Result (Option ℕ) (Option ℕ)
  latest_capture s =
      if hardware.is_captured s then checked_overcapture (hardware.read_value s) else (s, ok none)

  -- What waits in the register is read before the channel is enabled.
  unfoldable pub enable : InputCapture → InputCapture
  enable c = record {
    registers = record (c.registers) { is_enabled = true };
    status = (latest_capture c.status).0;
  }
