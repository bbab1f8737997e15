-- ===== src/Hardware/Stampers.antt =====
-- src/hardware/input_stamper.rs and src/hardware/pounder/timestamp.rs: the timestamps of the digital
-- input and of the batches. `none` is a panic.
use stabilizer.Prelude.{
  ℕ, ◌^◌, ◌≡◌, ◌≢◌, refl, arith, ◌==◌, ==_iff, if◌then◌else◌, false, Option, none, some, sym,
  Bool-cases, inl, inr,
}
use stabilizer.Prelude.Results.{◌>>=◌, Result}
use stabilizer.Hardware.Timers.{
  HalTimer, Timer, compare_pulse, trigger1, div1_n8, ti4, trc, Prescaler, div1, div2, div4, div8,
  prescaler_code, set_period_ticks, generate_trigger, set_trigger_source, ChannelRegisters,
  into_input_capture, configure_filter, configure_prescaler, CaptureHardware, InputCapture,
  latest_capture, enable,
}

-- The prescaler of a batch size.
unfoldable pub prescaler_of : ℕ → Option Prescaler
prescaler_of n =
    if n == 1
    then some div1
    else if n == 2
    then some div2
    else if n == 4
    then some div4
    else if n == 8
    then some div8
    else none

module _ (hardware : CaptureHardware) where
  open hardware use {State}

  -- `InputStamper`, which is its capture channel.
  unfoldable pub new_input_stamper : ChannelRegisters → State → InputCapture hardware
  new_input_stamper registers status = record {
    registers = configure_filter div1_n8 (into_input_capture ti4 registers);
    status = status;
  }

  abbrev pub start : InputCapture hardware → InputCapture hardware
  start c = enable hardware c

  unfoldable pub latest_timestamp :
      InputCapture hardware → InputCapture hardware × Result (Option ℕ) (Option ℕ)
  latest_timestamp c =
      let (status, result) = latest_capture hardware c.status in
      (record c { status = status }, result)

  module _ (hal : HalTimer) where
    pub record Timestamper : Type 0 where
      pub timer : Timer hal
      pub capture_channel : InputCapture hardware

    -- `Timestamper::new`, with the sampling timer that it sets.
    unfoldable pub new_timestamper :
        Timer hal → ChannelRegisters → State → Timer hal → ℕ → Option (Timestamper × Timer hal)
    new_timestamper timer registers status sampling batch_size = do
      prescaler ← prescaler_of batch_size
      some (
        record {
          timer = set_trigger_source hal trigger1 timer;
          capture_channel = record {
            registers = configure_prescaler prescaler (into_input_capture trc registers);
            status = status;
          };
        },
        generate_trigger hal compare_pulse sampling,
      )

    unfoldable pub start_timestamps : Timestamper → Timestamper
    start_timestamps t = record t { capture_channel = enable hardware t.capture_channel }

    unfoldable pub update_period : ℕ → Timestamper → Timestamper
    update_period period t = record t { timer = set_period_ticks hal period t.timer }

    unfoldable pub batch_timestamp : Timestamper → Timestamper × Result (Option ℕ) (Option ℕ)
    batch_timestamp t =
        let (c, result) = latest_timestamp t.capture_channel in
        (record t { capture_channel = c }, result)

-- The prescaler that suits a batch size: capture once in 2^code samples.
abbrev Suits : ℕ → Option Prescaler → Type 0
Suits n none = (p : Prescaler) → 2 ^ prescaler_code p ≢ n
Suits n (some p) = 2 ^ prescaler_code p ≡ n

differs : (a n : ℕ) → (n == a) ≡ false → a ≢ n
differs a n e same = absurd (ground arith)

no_prescaler :
    (n : ℕ)
    → (n == 1) ≡ false
    → (n == 2) ≡ false
    → (n == 4) ≡ false
    → (n == 8) ≡ false
    → Suits n none
no_prescaler n a b c d div1 = differs 1 n a
no_prescaler n a b c d div2 = differs 2 n b
no_prescaler n a b c d div4 = differs 4 n c
no_prescaler n a b c d div8 = differs 8 n d

prescaler_of-Suits : (n : ℕ) → Suits n (prescaler_of n)
unfolding prescaler_of
prescaler_of-Suits n = elim (Bool-cases (n == 1)) [
  | inl a ↦ rw (a, Suits) (sym ((==_iff n 1).0 a))
  | inr a ↦ elim (Bool-cases (n == 2)) [
    | inl b ↦ rw (a, b, Suits) (sym ((==_iff n 2).0 b))
    | inr b ↦ elim (Bool-cases (n == 4)) [
      | inl c ↦ rw (a, b, c, Suits) (sym ((==_iff n 4).0 c))
      | inr c ↦ elim (Bool-cases (n == 8)) [
        | inl d ↦ rw (a, b, c, d, Suits) (sym ((==_iff n 8).0 d))
        | inr d ↦ rw (a, b, c, d, Suits) (no_prescaler n a b c d)
      ]
    ]
  ]
]

module _ (hardware : CaptureHardware) (hal : HalTimer) where
  -- The channel captures on the trigger of its timer, which is that of the sampling timer, once in
  -- as many triggers as a batch has samples; 1 is ITR1, and 3 the compare pulse.
  abbrev pub CapturesBatches : ℕ → Option (Timestamper hardware hal × Timer hal) → Type 0
  CapturesBatches n none = (p : Prescaler) → 2 ^ prescaler_code p ≢ n
  CapturesBatches n (some (t, sampling)) =
      (2 ^ t.capture_channel.registers.input_prescaler ≡ n)
      × (t.capture_channel.registers.selection ≡ some trc)
      × (t.timer.registers.ts ≡ 1)
      × (sampling.registers.mms ≡ 3)

  constructed :
      (n : ℕ) (prescaler : Option Prescaler) (timer sampling : Timer hal)
      (registers : ChannelRegisters) (status : hardware.State)
      → Suits n prescaler
      → CapturesBatches n (do
        p ← prescaler
        some (
          record {
            timer = set_trigger_source hal trigger1 timer;
            capture_channel = record {
              registers = configure_prescaler p (into_input_capture trc registers);
              status = status;
            };
          },
          generate_trigger hal compare_pulse sampling,
        ))
  unfolding set_trigger_source configure_prescaler into_input_capture generate_trigger
  constructed n none timer sampling registers status h = h
  constructed n (some p) timer sampling registers status h = (h, refl, refl, refl)

  -- For every batch size: the construction of the timestamper panics if no prescaler divides by
  -- the batch size, and otherwise the channel captures its timer's trigger once in a batch, this
  -- timer is triggered by the sampling timer, and that gives a trigger at each compare pulse.
  pub new_timestamper-CapturesBatches :
      (timer sampling : Timer hal) (registers : ChannelRegisters) (status : hardware.State) (n : ℕ)
      → CapturesBatches n (new_timestamper hardware hal timer registers status sampling n)
  unfolding new_timestamper
  new_timestamper-CapturesBatches timer sampling registers status n =
      constructed n (prescaler_of n) timer sampling registers status (prescaler_of-Suits n)
