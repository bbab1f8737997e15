-- ===== src/Apps/DualIir/Runs.antt =====
-- Batches that are processed one after the other, src/bin/dual-iir.rs, while the settings stay.
use stabilizer.Prelude.{ℕ, ◌≡◌, refl, ap, ap₂, ◌∙◌, Bool, List, [], ◌∷◌, ◌++◌, Option, some, length}
use mathlib.Core.Option.{some-injective}
use stabilizer.Prelude.Results.{◌>>=◌, some_steps}
use stabilizer.Prelude.Floats.{Floats, SignedFloats}
use stabilizer.Hardware.SignalGenerator.{Sources, SignalGenerator}
use stabilizer.Net.DataStream.{Pool, Queue, StreamFrame, add}
use stabilizer.Apps.Streaming.{sample_batch, buffers_of, first}
use stabilizer.Apps.DualIir.{
  Filters, DualIir, Processing, convert_channel, is_held, outputs_of, process,
}
use stabilizer.Apps.DualIir.Batches.{convert_channel-append}

-- A batch: its buffers, the digital inputs, and the stream as the batch finds it.
pub record Batch (P Q : Type 0) : Type 0 where
  pub digital_inputs : Bool × Bool
  pub adcs : List ℕ × List ℕ
  pub dacs : List ℕ × List ℕ
  pub free : P
  pub queued : Q

module _ {P Q : Type 0} where
  abbrev pub samples0 : List (Batch P Q) → List ℕ
  samples0 [] = []
  samples0 (b ∷ batches) = b.adcs.0 ++ samples0 batches

  abbrev pub samples1 : List (Batch P Q) → List ℕ
  samples1 [] = []
  samples1 (b ∷ batches) = b.adcs.1 ++ samples1 batches

  abbrev pub places0 : List (Batch P Q) → List ℕ
  places0 [] = []
  places0 (b ∷ batches) = b.dacs.0 ++ places0 batches

  abbrev pub places1 : List (Batch P Q) → List ℕ
  places1 [] = []
  places1 (b ∷ batches) = b.dacs.1 ++ places1 batches

  -- The buffers of each batch have as many codes as samples.
  abbrev pub AreEven : List (Batch P Q) → Type 0
  AreEven [] = Unit
  AreEven (b ∷ batches) =
      (length b.adcs.0 ≡ length b.dacs.0) × (length b.adcs.1 ≡ length b.dacs.1) × AreEven batches

module _ (floats : Floats) (signed : SignedFloats floats) (filters : Filters floats)
    (sources : Sources) where
  open filters use {Biquad, State}

  abbrev Channel : Type 0
  Channel = List State × SignalGenerator sources

  abbrev converted : Bool → List Biquad → List ℕ → List ℕ → Channel → Channel × List ℕ
  converted = convert_channel floats signed filters sources

  two_runs :
      (hold : Bool) (bs : List Biquad) (xs more outputs places codes rest : List ℕ)
      (a b c : Channel)
      → length xs ≡ length outputs
      → converted hold bs xs outputs a ≡ (b, codes)
      → converted hold bs more places b ≡ (c, rest)
      → converted hold bs (xs ++ more) (outputs ++ places) a ≡ (c, codes ++ rest)
  two_runs hold bs xs more outputs places codes rest a b c e first second =
      convert_channel-append floats signed filters sources hold bs xs more outputs places a e
      ∙ rw (first, second) refl

  module _ (pool : Pool) (queue : Queue StreamFrame) where
    abbrev P : Type 0
    P = Processing floats signed filters sources pool.State queue.State

    abbrev pub B : Type 0
    B = Batch pool.State queue.State

    -- Whether the filters hold is the same in all batches.
    abbrev pub AllHeld : DualIir floats signed filters → Bool → List B → Type 0
    AllHeld settings hold [] = Unit
    AllHeld settings hold (b ∷ batches) =
        (is_held floats signed filters sources settings b.digital_inputs ≡ hold)
        × AllHeld settings hold batches

    -- `process` for each batch, with the codes of all.
    unfoldable pub process_all :
        DualIir floats signed filters → List B → P → Option (P × (List ℕ × List ℕ))
    process_all settings [] p = some (p, ([], []))
    process_all settings (b ∷ batches) p = do
      (p, codes) ←
          process floats signed filters sources pool queue settings b.digital_inputs b.adcs b.dacs
            (record p { free = b.free; queued = b.queued })
      (p, more) ← process_all settings batches p
      some (p, (codes.0 ++ more.0, codes.1 ++ more.1))

    -- The channels and the codes that a batch leaves are those of its outputs.
    abbrev Leaves : P × (List ℕ × List ℕ) → P → List ℕ × List ℕ → Type 0
    Leaves made q codes =
        (made.0.channel0 ≡ q.channel0) × (made.0.channel1 ≡ q.channel1) × (made.1 ≡ codes)

    process_lem :
        (settings : DualIir floats signed filters) (digital_inputs : Bool × Bool)
        (adcs dacs codes : List ℕ × List ℕ) (p q : P)
        → process floats signed filters sources pool queue settings digital_inputs adcs dacs p
          ≡ some (q, codes)
        → Leaves
            (outputs_of floats signed filters sources settings digital_inputs adcs dacs p)
            q
            codes
    unfolding process
    process_lem settings digital_inputs adcs dacs codes p q h =
        let made = outputs_of floats signed filters sources settings digital_inputs adcs dacs p in
        let batch = sample_batch (buffers_of adcs made.1) in
        let ((g, free, queued), _, k) =
          some_steps (add pool queue batch made.0.generator made.0.free made.0.queued) _ (q, codes)
            h in
        let (a0, _, k) = some_steps (first adcs.0) _ (q, codes) k in
        let (a1, _, k) = some_steps (first adcs.1) _ (q, codes) k in
        let (d0, _, k) = some_steps (first made.1.0) _ (q, codes) k in
        let (d1, _, k) = some_steps (first made.1.1) _ (q, codes) k in
        let e = some-injective _ _ k in
        (
          ap (λ (r : P × (List ℕ × List ℕ)). r.0.channel0) e,
          ap (λ (r : P × (List ℕ × List ℕ)). r.0.channel1) e,
          ap (λ (r : P × (List ℕ × List ℕ)). r.1) e,
        )

    -- Both channels, over all samples, with the channels and the codes at the end.
    abbrev pub Converts :
        DualIir floats signed filters → Bool → List B → P → P → List ℕ × List ℕ → Type 0
    Converts settings hold batches p q codes =
        (converted hold settings.iir_ch.0 (samples0 batches) (places0 batches) p.channel0
          ≡ (q.channel0, codes.0))
        × (converted hold settings.iir_ch.1 (samples1 batches) (places1 batches) p.channel1
            ≡ (q.channel1, codes.1))

    one_batch :
        (settings : DualIir floats signed filters) (hold : Bool) (b : B) (p q : P)
        (codes : List ℕ × List ℕ)
        → is_held floats signed filters sources settings b.digital_inputs ≡ hold
        → process floats signed filters sources pool queue settings b.digital_inputs b.adcs b.dacs
            (record p { free = b.free; queued = b.queued })
          ≡ some (q, codes)
        → (converted hold settings.iir_ch.0 b.adcs.0 b.dacs.0 p.channel0 ≡ (q.channel0, codes.0))
          × (converted hold settings.iir_ch.1 b.adcs.1 b.dacs.1 p.channel1 ≡ (q.channel1, codes.1))
    unfolding outputs_of
    one_batch settings hold b p q codes held h =
        let start = record p { free = b.free; queued = b.queued } in
        let (c0, c1, made) = process_lem settings b.digital_inputs b.adcs b.dacs codes start q h in
        (
          rw (← held) (
              ap₂ (λ (c : Channel) (d : List ℕ). (c, d)) c0
                (ap (λ (r : List ℕ × List ℕ). r.0) made)),
          rw (← held) (
              ap₂ (λ (c : Channel) (d : List ℕ). (c, d)) c1
                (ap (λ (r : List ℕ × List ℕ). r.1) made)),
        )

    pub process_all-Converts :
        (settings : DualIir floats signed filters) (hold : Bool) (batches : List B) (p q : P)
        (codes : List ℕ × List ℕ)
        → AreEven batches
        → AllHeld settings hold batches
        → process_all settings batches p ≡ some (q, codes)
        → Converts settings hold batches p q codes
    unfolding process_all convert_channel
    process_all-Converts settings hold [] p q codes even held h =
        let e = some-injective _ _ h in
        (
          ap (λ (r : P × (List ℕ × List ℕ)). (r.0.channel0, r.1.0)) e,
          ap (λ (r : P × (List ℕ × List ℕ)). (r.0.channel1, r.1.1)) e,
        )
    process_all-Converts settings hold (b ∷ batches) p q codes (even0, even1, even) (held, rest) h =
        let start = record p { free = b.free; queued = b.queued } in
        let ((p1, l), first_batch, k) =
          some_steps
            (process floats signed filters sources pool queue settings b.digital_inputs b.adcs
              b.dacs start)
            _ (q, codes) h in
        let ((p2, more), others, k) = some_steps (process_all settings batches p1) _ (q, codes) k in
        let (one0, one1) = one_batch settings hold b p p1 l held first_batch in
        let (all0, all1) = process_all-Converts settings hold batches p1 p2 more even rest others in
        let e = some-injective _ _ k in
        (
          two_runs hold settings.iir_ch.0 b.adcs.0 (samples0 batches) b.dacs.0 (places0 batches) l.0
                more.0 p.channel0 p1.channel0 p2.channel0 even0 one0 all0
              ∙ ap (λ (r : P × (List ℕ × List ℕ)). (r.0.channel0, r.1.0)) e,
          two_runs hold settings.iir_ch.1 b.adcs.1 (samples1 batches) b.dacs.1 (places1 batches) l.1
                more.1 p.channel1 p1.channel1 p2.channel1 even1 one1 all1
              ∙ ap (λ (r : P × (List ℕ × List ℕ)). (r.0.channel1, r.1.1)) e,
        )
