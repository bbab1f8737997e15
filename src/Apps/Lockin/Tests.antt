-- ===== src/Apps/Lockin/Tests.antt =====
-- A demodulator that keeps its input, on which the theorem of the application runs.
use stabilizer.Prelude.{ℕ, ◌+◌, u32, false, true, List, [], replicate}
use stabilizer.Hardware.SignalGenerator.{SignalGenerator, cosine}
use stabilizer.Hardware.Tests.Signals.{counting, register, channel}
use stabilizer.Net.DataStream.{StreamFrame}
use stabilizer.Net.DataStream.Tests.{bounded_laws}
use stabilizer.Net.DataStream.System.{Reach, here}
use stabilizer.Net.DataStream.System.Tests.{keeping, booted}
use stabilizer.Net.Telemetry.{default_buffer}
use stabilizer.Apps.Lockin.{Dsp, Processing}

-- The PLL counts its updates.
abbrev dsp : Dsp
dsp = record {
  Pll = ℕ;
  pll_update = λ timestamp shift_frequency shift_phase n. (n + 1, (0, 800));
  Demodulator = ℕ;
  demodulate = λ sample phase k d. (sample, (sample, phase));
  Accu = ℕ × ℕ;
  accu = λ start step. (start, step);
  next_phase = λ a. ((u32 (a.0 + a.1), a.1), a.0);
  abs_sqr = λ z. z.0;
  arg = λ z. z.1;
  log2 = λ z. 10;
}

abbrev wave : SignalGenerator counting
wave = record {
  phase_accumulator = 0;
  config = record {
    signal = cosine;
    amplitude = 3200;
    phase_increment0 = 536870912;
    phase_increment1 = 536870912;
    phase_offset = 0;
  };
  rng = 0;
}

abbrev processing : Processing dsp counting register ℕ (List StreamFrame)
processing = record {
  telemetry = default_buffer;
  timestamper = record { registers = channel; status = (true, false, 1234) };
  pll = 0;
  demodulator = 0;
  signal_generator = wave;
  generator = booted.generator;
  free = 4;
  queued = [];
}

abbrev samples : List ℕ × List ℕ
samples = (replicate 8 100, replicate 8 65436)

abbrev zeros : List ℕ × List ℕ
zeros = (replicate 8 0, replicate 8 0)

-- A device that has booted.
abbrev fresh : Reach keeping bounded_laws 64 booted booted
fresh = here
