-- ===== src/Apps/DualIir/Returns.antt =====
-- A run of batches of src/bin/dual-iir.rs returns: each batch has its full buffers, and the queue
-- of the stream has room for one more frame.
use stabilizer.Prelude.{ℕ, ◌≡◌, ◌<◌, refl, arith, ◌∙◌, List, [], ◌∷◌, ◌++◌, some, length}
use stabilizer.Prelude.Floats.{Floats, SignedFloats}
use stabilizer.Hardware.Codes.{adc_code, dac_code_of_u16}
use stabilizer.Hardware.SignalGenerator.{Sources}
use stabilizer.Net.DataStream.{Pool, Queue, StreamFrame}
use stabilizer.Net.DataStream.Contract.{QueueLaws}
use stabilizer.Net.DataStream.Frames.{concat}
use stabilizer.Net.DataStream.Room.{HasRoom, add-HasRoom}
use stabilizer.Apps.Streaming.{
  batch_size, buffers_of, sample_batch, sample_batch-Writes, head, first-head,
}
use stabilizer.Apps.DualIir.{Filters, DualIir, Processing, is_held, outputs_of, process}
use stabilizer.Apps.DualIir.Stream.{length-convert_channel}
use stabilizer.Apps.DualIir.Runs.{Batch, AreEven, process_all}

module _ (floats : Floats) (signed : SignedFloats floats) (filters : Filters floats)
    (sources : Sources) (pool : Pool) {queue : Queue StreamFrame} (ql : QueueLaws queue) where
  abbrev P : Type 0
  P = Processing floats signed filters sources pool.State queue.State

  abbrev B : Type 0
  B = Batch pool.State queue.State

  -- The buffers have the size of a batch, and the queue is not full.
  pub record IsBatch (b : B) : Type 0 where
    pub adc0 : length b.adcs.0 ≡ batch_size
    pub adc1 : length b.adcs.1 ≡ batch_size
    pub dac0 : length b.dacs.0 ≡ batch_size
    pub dac1 : length b.dacs.1 ≡ batch_size
    pub room : length (ql.view b.queued) < ql.capacity

  abbrev pub AreBatches : List B → Type 0
  AreBatches [] = Unit
  AreBatches (b ∷ batches) = IsBatch b × AreBatches batches

  pub AreBatches-AreEven : (batches : List B) → AreBatches batches → AreEven batches
  AreBatches-AreEven [] all = tt
  AreBatches-AreEven (b ∷ batches) (one, rest) = (
    omega (arith, one.adc0, one.dac0),
    omega (arith, one.adc1, one.dac1),
    AreBatches-AreEven batches rest,
  )

  process-HasRoom :
      (settings : DualIir floats signed filters) (b : B) (p : P)
      → IsBatch b
      → HasRoom 64 p.generator
      → (q : P) × (codes : List ℕ × List ℕ) × (process floats signed filters sources pool queue
            settings b.digital_inputs b.adcs b.dacs
            (record p { free = b.free; queued = b.queued })
          ≡ some (q, codes))
        × HasRoom 64 q.generator
  unfolding process outputs_of
  process-HasRoom settings b p fits has =
      let made =
        outputs_of floats signed filters sources settings b.digital_inputs b.adcs b.dacs
          (record p { free = b.free; queued = b.queued }) in
      let codes = made.1 in
      let hold = is_held floats signed filters sources settings b.digital_inputs in
      let l0 =
        length-convert_channel floats signed filters sources hold settings.iir_ch.0 b.adcs.0
          b.dacs.0 p.channel0 (omega (arith, fits.adc0, fits.dac0))
        ∙ fits.dac0 in
      let l1 =
        length-convert_channel floats signed filters sources hold settings.iir_ch.1 b.adcs.1
          b.dacs.1 p.channel1 (omega (arith, fits.adc1, fits.dac1))
        ∙ fits.dac1 in
      let (size, writes) = sample_batch-Writes b.adcs codes fits.adc0 fits.adc1 l0 l1 in
      let (h, free, queued, run, left) =
        add-HasRoom pool ql 64 (sample_batch (buffers_of b.adcs codes))
          (concat (buffers_of b.adcs codes)) p.generator b.free b.queued size writes (omega arith)
          fits.room has in
      (
        record (made.0) {
          telemetry = record {
            adcs = (adc_code (head b.adcs.0), adc_code (head b.adcs.1));
            dacs = (dac_code_of_u16 (head codes.0), dac_code_of_u16 (head codes.1));
            digital_inputs = b.digital_inputs;
          };
          generator = h;
          free = free;
          queued = queued;
        },
        codes,
        rw
            (
              run,
              first-head b.adcs.0 fits.adc0,
              first-head b.adcs.1 fits.adc1,
              first-head codes.0 l0,
              first-head codes.1 l1,
            )
            refl,
        left,
      )

  pub process_all-Returns :
      (settings : DualIir floats signed filters) (batches : List B) (p : P)
      → AreBatches batches
      → HasRoom 64 p.generator
      → (q : P) × (codes : List ℕ × List ℕ) × (process_all floats signed filters sources pool queue
            settings batches p
          ≡ some (q, codes))
  unfolding process_all
  process_all-Returns settings [] p all has = (p, ([], []), refl)
  process_all-Returns settings (b ∷ batches) p (fits, all) has =
      let (p1, codes, run, left) = process-HasRoom settings b p fits has in
      let (q, more, rest) = process_all-Returns settings batches p1 all left in
      (q, (codes.0 ++ more.0, codes.1 ++ more.1), rw run (rw rest refl))
