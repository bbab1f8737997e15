-- ===== src/Apps/Lockin/Stream.antt =====
-- A batch that is processed is a step of the stream; outputs other than the modulation are one code
-- for the whole batch.
use stabilizer.Prelude.{ℕ, ◌≡◌, ◌≢◌, true, Bool, List, Option, some, replicate, u16}
use stabilizer.Hardware.Codes.{dac_code, adc_code, dac_code_of_u16}
use stabilizer.Hardware.SignalGenerator.{Sources, SignalGenerator}
use stabilizer.Hardware.Timers.{CaptureHardware}
use stabilizer.Net.DataStream.{Pool, Queue, StreamFrame}
use stabilizer.Net.DataStream.Contract.{PoolLaws, QueueLaws}
use stabilizer.Net.DataStream.Transmit.{UdpStack}
use stabilizer.Net.DataStream.System.{System, Reach}
use stabilizer.Apps.Streaming.{batch_size, head}
use stabilizer.Apps.Streaming.Steps.{Extends}
use stabilizer.Apps.Lockin.{Conf, modulation, Complex, Dsp, Lockin, Processing, output_value}

module _ (dsp : Dsp) where
  module _ (sources : Sources) where
    -- The code of an output that does not depend on the generator.
    abbrev pub code_of : Conf → Complex → ℕ → SignalGenerator sources → ℕ
    code_of conf output frequency g =
        (dac_code (u16 (output_value dsp sources conf output frequency g).1)).dac_word

    module _ (hardware : CaptureHardware) (P Q : Type 0) where
      -- The demodulation leaves the stream and the telemetry alone, and has an output.
      abbrev Keeps :
          Processing dsp sources hardware P Q → Processing dsp sources hardware P Q → Type 0
      Keeps p q =
          (q.generator ≡ p.generator)
          × (q.free ≡ p.free)
          × (q.queued ≡ p.queued)
          × (q.telemetry ≡ p.telemetry)

    module _ (hardware : CaptureHardware) {pool : Pool} {queue : Queue StreamFrame} {udp : UdpStack}
        (pl : PoolLaws pool) (ql : QueueLaws queue)
        (closes : (socket : udp.Socket) (s : udp.State) → (udp.close socket s).1 ≡ true) where
      -- The processing with the generator, the pool and the queue of a system.
      abbrev pub within :
          System pool queue udp
          → Processing dsp sources hardware pool.State queue.State
          → Processing dsp sources hardware pool.State queue.State
      within t p = record p {
        generator = t.generator;
        free = t.stream.free;
        queued = t.stream.queued;
      }

      -- The result of `process`, and the run that it extends by the samples and the codes.
      abbrev pub Records :
          {s t : System pool queue udp}
          → Reach udp ql 64 s t
          → Lockin dsp
          → Bool × Bool
          → List ℕ × List ℕ
          → Option (Processing dsp sources hardware pool.State queue.State × (List ℕ × List ℕ))
          → Type 0
      Records {s} {t} r settings digital_inputs adcs result =
          (p : Processing dsp sources hardware pool.State queue.State) × (dacs : List ℕ × List ℕ)
          × (result ≡ some (p, dacs))
          × (p.telemetry ≡ record {
            adcs = (adc_code (head adcs.0), adc_code (head adcs.1));
            dacs = (dac_code_of_u16 (head dacs.0), dac_code_of_u16 (head dacs.1));
            digital_inputs = digital_inputs;
          })
          × (settings.output_conf.0 ≢ modulation
              → (code : ℕ) × (dacs.0 ≡ replicate batch_size code))
          × (settings.output_conf.1 ≢ modulation
              → (code : ℕ) × (dacs.1 ≡ replicate batch_size code))
          × Extends pl ql closes r adcs dacs p.generator p.free p.queued
