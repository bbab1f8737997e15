-- ===== src/Apps/DualIir/Batches.antt =====
-- The samples of a channel are converted one after the other: where a batch ends makes no difference,
-- and neither do the filters while they are held.
use stabilizer.Prelude.{ℕ, ◌≡◌, refl, arith, ap, Bool, true, List, [], ◌∷◌, ◌++◌, length}
use stabilizer.Prelude.Floats.{Floats, SignedFloats}
use stabilizer.Hardware.SignalGenerator.{Sources, SignalGenerator}
use stabilizer.Net.DataStream.{Pool, Queue, StreamFrame}
use stabilizer.Apps.DualIir.{
  Filters, DualIir, Processing, cascade, convert, convert_channel, is_held, outputs_of, process,
}

module _ (floats : Floats) (signed : SignedFloats floats) (filters : Filters floats)
    (sources : Sources) where
  open floats use {Float}
  open filters use {Biquad, State}

  abbrev Channel : Type 0
  Channel = List State × SignalGenerator sources

  -- Two batches in a row.
  abbrev pub in_two_batches :
      Bool
      → List Biquad
      → List ℕ × List ℕ
      → List ℕ × List ℕ
      → List State × SignalGenerator sources
      → (List State × SignalGenerator sources) × List ℕ
  in_two_batches hold bs inputs outputs s =
      let (s, codes) = convert_channel floats signed filters sources hold bs inputs.0 outputs.0 s in
      let (s, more) = convert_channel floats signed filters sources hold bs inputs.1 outputs.1 s in
      (s, codes ++ more)

  -- For a first batch with as many outputs as inputs: converting two batches in one gives the
  -- codes, the filter states and the generator that converting them one after the other gives.
  pub convert_channel-append :
      (hold : Bool) (bs : List Biquad) (inputs more_inputs outputs more_outputs : List ℕ)
      (s : List State × SignalGenerator sources)
      → length inputs ≡ length outputs
      → convert_channel floats signed filters sources hold bs
          (inputs ++ more_inputs)
          (outputs ++ more_outputs)
          s
        ≡ in_two_batches hold bs (inputs, more_inputs) (outputs, more_outputs) s
  unfolding convert_channel
  convert_channel-append hold bs [] more_inputs [] more_outputs s e = refl
  convert_channel-append hold bs [] more_inputs (d ∷ outputs) more_outputs s e =
      absurd (omega arith)
  convert_channel-append hold bs (x ∷ inputs) more_inputs [] more_outputs s e = absurd (omega arith)
  convert_channel-append hold bs (x ∷ inputs) more_inputs (d ∷ outputs) more_outputs s e =
      let made = convert floats signed filters sources hold bs x s in
      ap (λ (r : Channel × List ℕ). (r.0, made.1 ∷ r.1))
        (convert_channel-append hold bs inputs more_inputs outputs more_outputs made.0
          (omega arith))

  cascade_held :
      (bs cs : List Biquad) (states : List State) (y : Float)
      → length bs ≡ length cs
      → cascade floats signed filters true bs states y
        ≡ cascade floats signed filters true cs states y
  unfolding cascade
  cascade_held [] [] states y e = refl
  cascade_held [] (c ∷ cs) states y e = absurd (omega arith)
  cascade_held (b ∷ bs) [] states y e = absurd (omega arith)
  cascade_held (b ∷ bs) (c ∷ cs) [] y e = refl
  cascade_held (b ∷ bs) (c ∷ cs) (s ∷ states) y e =
      let next = filters.update filters.hold s y in
      ap (λ (r : List State × Float). (next.0 ∷ r.0, r.1))
        (cascade_held bs cs states next.1 (omega arith))

  convert_channel_held :
      (bs cs : List Biquad) (inputs outputs : List ℕ) (s : List State × SignalGenerator sources)
      → length bs ≡ length cs
      → convert_channel floats signed filters sources true bs inputs outputs s
        ≡ convert_channel floats signed filters sources true cs inputs outputs s
  unfolding convert_channel convert
  convert_channel_held bs cs [] outputs s e = refl
  convert_channel_held bs cs (x ∷ inputs) [] s e = refl
  convert_channel_held bs cs (x ∷ inputs) (_ ∷ outputs) s e =
      let same = cascade_held bs cs s.0 (signed.from_i16 x) e in
      let made = convert floats signed filters sources true cs x s in
      rw same (
        ap (λ (r : Channel × List ℕ). (r.0, made.1 ∷ r.1))
          (convert_channel_held bs cs inputs outputs made.0 e))

  module _ (pool : Pool) (queue : Queue StreamFrame) where
    -- While the filters are held, by force or by the second digital input where that is allowed:
    -- the result of process does not depend on the filters that are set, of which there are as
    -- many.
    pub process_held :
        (settings : DualIir floats signed filters) (digital_inputs : Bool × Bool)
        (adcs dacs : List ℕ × List ℕ) (bs cs : List Biquad)
        (p : Processing floats signed filters sources pool.State queue.State)
        → is_held floats signed filters sources settings digital_inputs ≡ true
        → length bs ≡ length settings.iir_ch.0
        → length cs ≡ length settings.iir_ch.1
        → process floats signed filters sources pool queue
            (record settings { iir_ch = (bs, cs) })
            digital_inputs
            adcs
            dacs
            p
          ≡ process floats signed filters sources pool queue settings digital_inputs adcs dacs p
    unfolding process outputs_of
    process_held settings digital_inputs adcs dacs bs cs p h lb lc =
        let e0 = convert_channel_held bs settings.iir_ch.0 adcs.0 dacs.0 p.channel0 lb in
        let e1 = convert_channel_held cs settings.iir_ch.1 adcs.1 dacs.1 p.channel1 lc in
        rw h (rw (e0, e1) refl)
