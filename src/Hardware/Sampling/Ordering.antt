-- ===== src/Hardware/Sampling/Ordering.antt =====
-- In a sampling period the flag is cleared, then the ADCs are read, then the DACs are updated.
use stabilizer.Prelude.{
  ℕ, zero, suc, ◌+◌, ◌-◌, ◌≡◌, ◌≤◌, ◌==◌, refl, ap, arith, true, false, leb, le→leb, List, [], ◌∷◌,
  Option, none, some, take, replicate, if◌then◌else◌, u16, u32,
}
use stabilizer.Prelude.Results.{ok}
use stabilizer.Prelude.Floats.{Floats, SignedFloats}
use stabilizer.Hardware.Codes.{DacCode, dac_from_volts}
use stabilizer.Hardware.Timers.{
  HalTimer, set_period_ticks, set_slave_mode, get_period, to_output_compare, listen_dma,
  ChannelRegisters,
}
use stabilizer.Hardware.Sampling.{
  DmaConfig, Priority, high, very_high, Transfer, AdcInput, DacOutput, Samplers, SamplingHardware,
  new_adc, new_dac, sampling, shadow_sampling, is_short, set_up_sampling,
}

-- The tick at which a channel requests its transfer: it is an output compare, with DMA.
abbrev pub request_of : Transfer → Option ℕ
request_of t = elim t.channel [
  | none ↦ none
  | some c ↦ elim c.selection [
    | none ↦ if c.dma_enabled then some c.ccr else none
    | some source ↦ none
  ]
]

-- At each request at a tick, the transfer writes the word, again and again.
abbrev pub WritesAt : Transfer → ℕ → ℕ → Priority → Type 0
WritesAt t tick word priority =
    (request_of t ≡ some tick)
    × (t.buffers ≡ (word ∷ []) ∷ [])
    × (t.config.circular_buffer ≡ true)
    × (t.config.priority ≡ priority)

-- The transfer goes through two buffers of a batch, which are filled with a word.
abbrev pub IsDoubleBuffered : Transfer → ℕ → ℕ → Type 0
IsDoubleBuffered t batch_size word =
    (t.buffers ≡ replicate batch_size word ∷ replicate batch_size word ∷ [])
    × (t.config.double_buffer ≡ true)
    × (t.config.memory_increment ≡ true)

-- An input of the given index: its flag is cleared before each read, and the second one interrupts.
abbrev pub Samples : AdcInput → ℕ → ℕ → Type 0
Samples a index batch_size =
    WritesAt a.clear_transfer 0 8 very_high
    × WritesAt a.trigger_transfer (2 + index) 0x201 high
    × IsDoubleBuffered a.transfer batch_size 0
    × (a.transfer.channel ≡ none)
    × (a.transfer.config.transfer_complete_interrupt ≡ (index == 1))

-- An output of the given index, which starts with a code.
abbrev pub Updates : DacOutput → ℕ → ℕ → ℕ → Type 0
Updates d index batch_size code =
    (request_of d.output_transfer ≡ some (4 + index))
    × IsDoubleBuffered d.output_transfer batch_size code
    × (d.output_transfer.config.peripheral_increment ≡ false)

take-replicate : (n m word : ℕ) → n ≤ m → take n (replicate m word) ≡ replicate n word
take-replicate zero m word h = refl
take-replicate (suc n) zero word h = absurd (omega arith)
take-replicate (suc n) (suc m) word h =
    ap (λ (l : List ℕ). word ∷ l) (take-replicate n m word (omega arith))

new_adc-Samples :
    (default_config : DmaConfig) (index : ℕ) (trigger clear : ChannelRegisters)
    (period shadow_period batch_size : ℕ)
    → 2 + index ≤ period
    → batch_size ≤ 32
    → (a : AdcInput) × (new_adc default_config index trigger clear period shadow_period batch_size
        ≡ some a)
      × Samples a index batch_size
unfolding new_adc to_output_compare listen_dma
new_adc-Samples default_config index trigger clear period shadow_period batch_size within fits =
    let in_period : leb (2 + index) period ≡ true = le→leb _ _ within in
    let in_buffer : leb batch_size 32 ≡ true = le→leb _ _ fits in
    let at_start : leb 0 shadow_period ≡ true = le→leb _ _ (omega arith) in
    let filled = take-replicate batch_size 32 0 fits in
    rw (at_start, in_period, in_buffer, filled)
      (
        _,
        refl,
        ((refl, refl, refl, refl), (refl, refl, refl, refl), (refl, refl, refl), refl, refl),
      )

new_dac-Updates :
    (default_config : DmaConfig) (floats : Floats) (signed : SignedFloats floats) (index : ℕ)
    (trigger : ChannelRegisters) (period batch_size : ℕ) (code : DacCode)
    → 4 + index ≤ period
    → batch_size ≤ 32
    → dac_from_volts floats signed (floats.literal 0 1) ≡ ok code
    → (d : DacOutput) × (new_dac default_config floats signed index trigger period batch_size
        ≡ some d)
      × Updates d index batch_size code.dac_word
unfolding new_dac to_output_compare listen_dma
new_dac-Updates default_config floats signed index trigger period batch_size code within fits
      volts =
    let in_period : leb (4 + index) period ≡ true = le→leb _ _ within in
    let in_buffer : leb batch_size 32 ≡ true = le→leb _ _ fits in
    let filled = take-replicate batch_size 32 code.dac_word fits in
    rw (in_period, in_buffer, volts, filled) (_, refl, (refl, (refl, refl, refl), refl))

module _ (default_config : DmaConfig) (floats : Floats) (signed : SignedFloats floats)
    (hal : HalTimer) where
  -- The samplers of a period, a batch and a code: the timers have the same period, the second one
  -- is started by the first one (ITR1, in trigger mode), and all requests are in the period.
  pub record IsOrdered (sample_ticks batch_size code : ℕ)
      (s : Samplers default_config floats signed hal) : Type 0 where
    pub periods : get_period hal s.sampling_timer ≡ sample_ticks - 1
    pub shadow_periods : get_period hal s.shadow_sampling_timer ≡ sample_ticks - 1
    pub shadow_trigger : s.shadow_sampling_timer.registers.ts ≡ 1
    pub shadow_mode : s.shadow_sampling_timer.registers.sms ≡ 6
    pub samples0 : Samples s.adc0 0 batch_size
    pub samples1 : Samples s.adc1 1 batch_size
    pub updates0 : Updates s.dac0 0 batch_size code
    pub updates1 : Updates s.dac1 1 batch_size code
    pub in_period : 5 ≤ sample_ticks - 1

  -- For a sampling period of 6 to 65536 ticks, a batch of at most 32 samples that takes less than
  -- a millisecond, and f32 in which 0 V has a code: the set-up returns; both timers then have this
  -- period, and the second one starts with the first one. In it the channels request by DMA, each
  -- with its word, the clear of both end-of-transfer flags at tick 0 and the reads of the ADCs at
  -- ticks 2 and 3, and the updates of the DACs at ticks 4 and 5. The samples and the codes go
  -- through two buffers of a batch, those of the DACs with the code of 0 V, and only the second
  -- ADC interrupts.
  pub set_up_sampling-IsOrdered :
      (batch_size sample_ticks : ℕ) (code : DacCode)
      (h : SamplingHardware default_config floats signed hal)
      → 6 ≤ sample_ticks
      → sample_ticks ≤ 65536
      → batch_size ≤ 32
      → is_short default_config floats signed batch_size sample_ticks ≡ true
      → dac_from_volts floats signed (floats.literal 0 1) ≡ ok code
      → (s : Samplers default_config floats signed hal) × (set_up_sampling default_config floats
            signed hal batch_size sample_ticks h
          ≡ some s)
        × IsOrdered sample_ticks batch_size code.dac_word s
  unfolding set_up_sampling set_period_ticks set_slave_mode
  set_up_sampling-IsOrdered batch_size sample_ticks code h at_least at_most fits short volts =
      let ticks : ℕ = u32 (sample_ticks + 4294967295) in
      let shadow_ticks : ℕ = u16 (u16 sample_ticks + 65535) in
      let period : u32 (sample_ticks + 4294967295) ≡ sample_ticks - 1 = omega arith in
      let shadow : u16 (u16 sample_ticks + 65535) ≡ sample_ticks - 1 = omega arith in
      let (adc0, new0, samples0) =
        new_adc-Samples default_config 0 h.ch1 h.shadow_ch1 ticks shadow_ticks batch_size
          (omega arith) fits in
      let (adc1, new1, samples1) =
        new_adc-Samples default_config 1 h.ch2 h.shadow_ch2 ticks shadow_ticks batch_size
          (omega arith) fits in
      let (dac0, new2, updates0) =
        new_dac-Updates default_config floats signed 0 h.ch3 ticks batch_size code (omega arith)
          fits volts in
      let (dac1, new3, updates1) =
        new_dac-Updates default_config floats signed 1 h.ch4 ticks batch_size code (omega arith)
          fits volts in
      let samplers : Samplers default_config floats signed hal = record {
        sampling_timer = sampling default_config floats signed hal sample_ticks h.sampling_timer;
        shadow_sampling_timer =
            shadow_sampling default_config floats signed hal sample_ticks h.shadow_sampling_timer;
        adc0 = adc0;
        adc1 = adc1;
        dac0 = dac0;
        dac1 = dac1;
      } in
      (
        samplers,
        rw (short, new0, new1, new2, new3) refl,
        record {
          periods = period;
          shadow_periods = shadow;
          shadow_trigger = refl;
          shadow_mode = refl;
          samples0 = samples0;
          samples1 = samples1;
          updates0 = updates0;
          updates1 = updates1;
          in_period = omega arith;
        },
      )
