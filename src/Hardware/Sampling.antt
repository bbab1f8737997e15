-- ===== src/Hardware/Sampling.antt =====
-- The sampling of the ADCs and the DACs: src/hardware/adc.rs and src/hardware/dac.rs (the
-- constructors), and src/hardware/setup.rs (the sampling timers). The default of the HAL's DMA
-- configuration is a parameter. `none` is a panic.
pub mod Ordering
use stabilizer.Prelude.{
  ℕ, ◌+◌, ◌*◌, leb, ◌==◌, if◌then◌else◌, Bool, true, false, List, [], ◌∷◌, Option, none, some, take,
  replicate, u16, u32,
}
use stabilizer.Prelude.Results.{◌>>=◌, Result, ok, err}
use stabilizer.Prelude.Floats.{Floats, SignedFloats}
use stabilizer.Hardware.Codes.{DacCode, dac_from_volts}
use stabilizer.Hardware.Timers.{
  HalTimer, Timer, TimerRegisters, get_period, set_period_ticks, set_slave_mode, trigger1,
  trigger_mode, ChannelRegisters, listen_dma, to_output_compare,
}

abbrev pub max_sample_buffer_size : ℕ
max_sample_buffer_size = 32

-- The priorities that the code asks for, beside the default.
pub data Priority : Type 0 where
  default_priority high very_high : Priority

pub record DmaConfig : Type 0 where
  pub priority : Priority
  pub circular_buffer : Bool
  pub memory_increment : Bool
  pub peripheral_increment : Bool
  pub double_buffer : Bool
  pub transfer_complete_interrupt : Bool

-- A transfer with its buffers and, if a timer channel requests it, the channel.
pub record Transfer : Type 0 where
  pub config : DmaConfig
  pub buffers : List (List ℕ)
  pub channel : Option ChannelRegisters

pub record AdcInput : Type 0 where
  pub transfer : Transfer
  pub trigger_transfer : Transfer
  pub clear_transfer : Transfer

pub record DacOutput : Type 0 where
  pub output_transfer : Transfer

-- `buffer[..n]`.
abbrev pub slice_to : ℕ → List ℕ → Option (List ℕ)
slice_to n buffer = if leb n max_sample_buffer_size then some (take n buffer) else none

module _ (default_config : DmaConfig) where
  -- The words that clear the end-of-transfer flag and start the SPI.
  abbrev pub spi_eot_clear : List ℕ
  spi_eot_clear = 8 ∷ []

  abbrev pub spi_start : List ℕ
  spi_start = 0x201 ∷ []

  -- `Adc0Input::new` and `Adc1Input::new`, on the channels and the periods of their timers. The
  -- buffers are zeros.
  unfoldable pub new_adc : ℕ → ChannelRegisters → ChannelRegisters → ℕ → ℕ → ℕ → Option AdcInput
  new_adc index trigger_channel clear_channel period shadow_period batch_size = do
    clear ← to_output_compare shadow_period 0 (listen_dma clear_channel)
    trigger ← to_output_compare period (2 + index) (listen_dma trigger_channel)
    buffer0 ← slice_to batch_size (replicate max_sample_buffer_size 0)
    buffer1 ← slice_to batch_size (replicate max_sample_buffer_size 0)
    some (record {
      clear_transfer = record {
        config = record default_config { priority = very_high; circular_buffer = true };
        buffers = spi_eot_clear ∷ [];
        channel = some clear;
      };
      trigger_transfer = record {
        config = record default_config { priority = high; circular_buffer = true };
        buffers = spi_start ∷ [];
        channel = some trigger;
      };
      transfer = record {
        config = record default_config {
          memory_increment = true;
          double_buffer = true;
          transfer_complete_interrupt = index == 1;
          priority = very_high;
        };
        buffers = buffer0 ∷ buffer1 ∷ [];
        channel = none;
      };
    })

  -- `try_from(0.0).unwrap()`.
  abbrev pub unwrapped_code : Result (Unit {0}) DacCode → Option ℕ
  unwrapped_code (ok code) = some code.dac_word
  unwrapped_code (err e) = none

  module _ (floats : Floats) (signed : SignedFloats floats) where
    open floats use {from_nat, literal, times, over, less}

    -- `Dac0Output::new` and `Dac1Output::new`; the buffers are 0 V.
    unfoldable pub new_dac : ℕ → ChannelRegisters → ℕ → ℕ → Option DacOutput
    new_dac index trigger_channel period batch_size = do
      trigger ← to_output_compare period (4 + index) (listen_dma trigger_channel)
      code ← unwrapped_code (dac_from_volts floats signed (literal 0 1))
      buffer0 ← slice_to batch_size (replicate max_sample_buffer_size code)
      buffer1 ← slice_to batch_size (replicate max_sample_buffer_size code)
      some (record {
        output_transfer = record {
          config = record default_config {
            memory_increment = true;
            double_buffer = true;
            peripheral_increment = false;
          };
          buffers = buffer0 ∷ buffer1 ∷ [];
          channel = some trigger;
        };
      })

    -- `TIMER_PERIOD`, and the assertion that a batch takes less than a millisecond.
    abbrev pub timer_period : floats.Float
    timer_period = over (literal 1 1) (from_nat 100000000)

    abbrev pub is_short : ℕ → ℕ → Bool
    is_short batch_size sample_ticks =
        less
          (times (times (from_nat (u32 (u32 batch_size * sample_ticks))) timer_period)
            (from_nat 1000))
          (literal 1 1)

    -- The timers and their channels.
    pub record SamplingHardware (hal : HalTimer) : Type 0 where
      pub sampling_timer : Timer hal
      pub shadow_sampling_timer : Timer hal
      pub ch1 : ChannelRegisters
      pub ch2 : ChannelRegisters
      pub ch3 : ChannelRegisters
      pub ch4 : ChannelRegisters
      pub shadow_ch1 : ChannelRegisters
      pub shadow_ch2 : ChannelRegisters

    pub record Samplers (hal : HalTimer) : Type 0 where
      pub sampling_timer : Timer hal
      pub shadow_sampling_timer : Timer hal
      pub adc0 : AdcInput
      pub adc1 : AdcInput
      pub dac0 : DacOutput
      pub dac1 : DacOutput

    module _ (hal : HalTimer) where
      -- `sample_ticks - 1` of a u32, and `sample_ticks as u16 - 1`.
      abbrev pub sampling : ℕ → Timer hal → Timer hal
      sampling sample_ticks timer = set_period_ticks hal (u32 (sample_ticks + 4294967295)) timer

      abbrev pub shadow_sampling : ℕ → Timer hal → Timer hal
      shadow_sampling sample_ticks timer =
          set_slave_mode hal trigger1 trigger_mode
            (set_period_ticks hal (u16 (u16 sample_ticks + 65535)) timer)

      -- The part of `setup` that makes the samplers.
      unfoldable pub set_up_sampling : ℕ → ℕ → SamplingHardware hal → Option (Samplers hal)
      set_up_sampling batch_size sample_ticks h = do
        _ ← if is_short batch_size sample_ticks then some (tt {0}) else none
        let timer = sampling sample_ticks h.sampling_timer
        let shadow = shadow_sampling sample_ticks h.shadow_sampling_timer
        let period = get_period hal timer
        let shadow_period = get_period hal shadow
        adc0 ← new_adc 0 h.ch1 h.shadow_ch1 period shadow_period batch_size
        adc1 ← new_adc 1 h.ch2 h.shadow_ch2 period shadow_period batch_size
        dac0 ← new_dac 0 h.ch3 period batch_size
        dac1 ← new_dac 1 h.ch4 period batch_size
        some (record {
          sampling_timer = timer;
          shadow_sampling_timer = shadow;
          adc0 = adc0;
          adc1 = adc1;
          dac0 = dac0;
          dac1 = dac1;
        })
