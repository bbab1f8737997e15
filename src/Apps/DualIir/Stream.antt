-- ===== src/Apps/DualIir/Stream.antt =====
-- A batch that is processed is a step of the stream, with its samples and codes.
use stabilizer.Prelude.{
  ℕ, suc, ◌≡◌, refl, arith, ap, ◌∙◌, true, Bool, List, [], ◌∷◌, Option, some, length,
}
use stabilizer.Prelude.Floats.{Floats, SignedFloats}
use stabilizer.Hardware.Codes.{adc_code, dac_code_of_u16}
use stabilizer.Hardware.SignalGenerator.{Sources, SignalGenerator}
use stabilizer.Net.DataStream.{Pool, Queue, StreamFrame}
use stabilizer.Net.DataStream.Contract.{PoolLaws, QueueLaws}
use stabilizer.Net.DataStream.Transmit.{UdpStack}
use stabilizer.Net.DataStream.System.{System, Reach, IsInitial}
use stabilizer.Apps.Streaming.{batch_size, measured, head, first-head}
use stabilizer.Apps.Streaming.Steps.{Extends, Reach-Extends}
use stabilizer.Apps.DualIir.{
  Filters, DualIir, Processing, convert, convert_channel, is_held, outputs_of, process,
}

module _ (floats : Floats) (signed : SignedFloats floats) (filters : Filters floats)
    (sources : Sources) where
  open filters use {Biquad, State}

  pub length-convert_channel :
      (hold : Bool) (bs : List Biquad) (inputs outputs : List ℕ)
      (s : List State × SignalGenerator sources)
      → length inputs ≡ length outputs
      → length (convert_channel floats signed filters sources hold bs inputs outputs s).1
        ≡ length outputs
  unfolding convert_channel
  length-convert_channel hold bs [] outputs s e = refl
  length-convert_channel hold bs (x ∷ inputs) [] s e = refl
  length-convert_channel hold bs (x ∷ inputs) (d ∷ outputs) s e = ap suc (
      length-convert_channel hold bs inputs outputs
        (convert floats signed filters sources hold bs x s).0 (omega arith))

  module _ {pool : Pool} {queue : Queue StreamFrame} {udp : UdpStack} (pl : PoolLaws pool)
      (ql : QueueLaws queue)
      (closes : (socket : udp.Socket) (s : udp.State) → (udp.close socket s).1 ≡ true) where
    -- The processing with the generator, the pool and the queue of a system.
    abbrev pub within :
        System pool queue udp
        → Processing floats signed filters sources pool.State queue.State
        → Processing floats signed filters sources pool.State queue.State
    within t p = record p {
      generator = t.generator;
      free = t.stream.free;
      queued = t.stream.queued;
    }

    -- The result of `process`, and the run that it extends by the samples and the codes.
    abbrev pub Records :
        {s t : System pool queue udp}
        → Reach udp ql 64 s t
        → Bool × Bool
        → List ℕ × List ℕ
        → Option
            (Processing floats signed filters sources pool.State queue.State × (List ℕ × List ℕ))
        → Type 0
    Records {s} {t} r digital_inputs adcs result =
        (p : Processing floats signed filters sources pool.State queue.State) × (dacs : List ℕ
          × List ℕ)
        × (result ≡ some (p, dacs))
        × (length dacs.0 ≡ batch_size)
        × (length dacs.1 ≡ batch_size)
        × (p.telemetry ≡ record {
          adcs = (adc_code (head adcs.0), adc_code (head adcs.1));
          dacs = (dac_code_of_u16 (head dacs.0), dac_code_of_u16 (head dacs.1));
          digital_inputs = digital_inputs;
        })
        × Extends pl ql closes r adcs dacs p.generator p.free p.queued

    -- From a fresh device, after any run of its stream, for buffers of a batch: process returns
    -- with as many codes, reports the digital inputs and the first sample of each buffer, and is a
    -- step of the run, to whose history it adds the bytes of the samples and of the codes.
    pub Reach-Records :
        (format : ℕ) {s t : System pool queue udp} (settings : DualIir floats signed filters)
        (digital_inputs : Bool × Bool) (adcs dacs : List ℕ × List ℕ)
        (p : Processing floats signed filters sources pool.State queue.State)
        → IsInitial pl ql closes format s
        → (r : Reach udp ql 64 s t) → length adcs.0 ≡ batch_size
        → length adcs.1 ≡ batch_size
        → length dacs.0 ≡ batch_size
        → length dacs.1 ≡ batch_size
        → Records r digital_inputs adcs (
            process floats signed filters sources pool queue settings digital_inputs adcs dacs
              (within t p))
    unfolding process outputs_of
    Reach-Records format {s} {t} settings digital_inputs adcs dacs p i r a0 a1 d0 d1 =
        let made =
          outputs_of floats signed filters sources settings digital_inputs adcs dacs (within t p) in
        let codes = made.1 in
        let hold = is_held floats signed filters sources settings digital_inputs in
        let l0 =
          length-convert_channel hold settings.iir_ch.0 adcs.0 dacs.0 p.channel0 (omega arith)
          ∙ d0 in
        let l1 =
          length-convert_channel hold settings.iir_ch.1 adcs.1 dacs.1 p.channel1 (omega arith)
          ∙ d1 in
        let (h, free, queued, run, extends) =
          Reach-Extends pl ql closes format adcs codes i r a0 a1 l0 l1 in
        (
          record (made.0) {
            telemetry =
                measured digital_inputs (head adcs.0, head adcs.1) (head codes.0, head codes.1);
            generator = h;
            free = free;
            queued = queued;
          },
          codes,
          rw
              (
                run,
                first-head adcs.0 a0,
                first-head adcs.1 a1,
                first-head codes.0 l0,
                first-head codes.1 l1,
              )
              refl,
          l0,
          l1,
          refl,
          extends,
        )
