-- ===== src/Apps/DualIir/Follows.antt =====
-- A run of batches, src/bin/dual-iir.rs, against the reference over all their samples.
use stabilizer.Prelude.{
  ℕ, ◌≡◌, refl, sym, arith, ◌∙◌, Bool, List, [], ◌∷◌, some, length, length-append,
}
use stabilizer.Prelude.Floats.{Floats, SignedFloats}
use stabilizer.Hardware.SignalGenerator.{Sources}
use stabilizer.Net.DataStream.{Pool, Queue, StreamFrame}
use stabilizer.Apps.DualIir.{Filters, DualIir, Processing}
use stabilizer.Net.DataStream.Contract.{QueueLaws}
use stabilizer.Net.DataStream.Room.{HasRoom}
use stabilizer.Apps.DualIir.Returns.{AreBatches, AreBatches-AreEven, process_all-Returns}
use stabilizer.Apps.DualIir.Reference.{reference, convert_channel-reference}
use stabilizer.Apps.DualIir.Runs.{
  Batch, samples0, samples1, places0, places1, AreEven, AllHeld, process_all, process_all-Converts,
}

module _ {P Q : Type 0} where
  even_lengths :
      (batches : List (Batch P Q))
      → AreEven batches
      → (length (samples0 batches) ≡ length (places0 batches))
        × (length (samples1 batches) ≡ length (places1 batches))
  even_lengths [] even = (refl, refl)
  even_lengths (b ∷ batches) (even0, even1, even) =
      let (rest0, rest1) = even_lengths batches even in
      (
        omega (
          arith,
          length-append b.adcs.0 (samples0 batches),
          length-append b.dacs.0 (places0 batches),
        ),
        omega (
          arith,
          length-append b.adcs.1 (samples1 batches),
          length-append b.dacs.1 (places1 batches),
        ),
      )

module _ (floats : Floats) (signed : SignedFloats floats) (filters : Filters floats)
    (sources : Sources) (pool : Pool) (queue : Queue StreamFrame) where
  abbrev P : Type 0
  P = Processing floats signed filters sources pool.State queue.State

  abbrev B : Type 0
  B = Batch pool.State queue.State

  abbrev pub Follows :
      DualIir floats signed filters → Bool → List B → P → P → List ℕ × List ℕ → Type 0
  Follows settings hold batches p q codes =
      (reference floats signed filters sources hold settings.iir_ch.0 (samples0 batches) p.channel0
        ≡ (q.channel0, codes.0))
      × (reference floats signed filters sources hold settings.iir_ch.1 (samples1 batches)
            p.channel1
          ≡ (q.channel1, codes.1))

  followed :
      (settings : DualIir floats signed filters) (hold : Bool) (batches : List B) (p q : P)
      (codes : List ℕ × List ℕ)
      → AreEven batches
      → AllHeld floats signed filters sources pool queue settings hold batches
      → process_all floats signed filters sources pool queue settings batches p ≡ some (q, codes)
      → Follows settings hold batches p q codes
  followed settings hold batches p q codes even held h =
      let (c0, c1) =
        process_all-Converts floats signed filters sources pool queue settings hold batches p q
          codes even held h in
      let (l0, l1) = even_lengths batches even in
      (
        sym (
              convert_channel-reference floats signed filters sources hold settings.iir_ch.0
                (samples0 batches) (places0 batches) p.channel0 l0)
            ∙ c0,
        sym (
              convert_channel-reference floats signed filters sources hold settings.iir_ch.1
                (samples1 batches) (places1 batches) p.channel1 l1)
            ∙ c1,
      )

  -- The batches run from a state to another one, with codes, and these are as the reference says.
  abbrev pub RunsAs : DualIir floats signed filters → Bool → List B → P → Type 0
  RunsAs settings hold batches p =
      (q : P) × (codes : List ℕ × List ℕ) × (process_all floats signed filters sources pool queue
          settings batches p
        ≡ some (q, codes))
      × Follows settings hold batches p q codes

  -- Over a queue with its laws and any pool, from a generator whose frame, if it has one, is
  -- filled with the batches before the next one and has room for it: process over any batches, one
  -- after the other, returns, for full buffers, a queue that is not full as a batch finds it, and
  -- filters that hold in all batches or in none, whatever else changes in the pool and the queue
  -- in between; and the codes, filter states and signal generators of both channels are those of
  -- the reference over the samples of all batches. It takes all samples through one filter after
  -- the other, all the signals from the generator, and then codes the saturated sums.
  pub process_all-Follows :
      (ql : QueueLaws queue) (settings : DualIir floats signed filters) (hold : Bool)
      (batches : List B) (p : P)
      → AreBatches floats signed filters sources pool ql batches
      → AllHeld floats signed filters sources pool queue settings hold batches
      → HasRoom 64 p.generator
      → RunsAs settings hold batches p
  process_all-Follows ql settings hold batches p all held room =
      let (q, codes, run) =
        process_all-Returns floats signed filters sources pool ql settings batches p all room in
      let even = AreBatches-AreEven floats signed filters sources pool ql batches all in
      (q, codes, run, followed settings hold batches p q codes even held run)
