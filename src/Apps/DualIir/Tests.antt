-- ===== src/Apps/DualIir/Tests.antt =====
-- Filters that scale their input, and a board with a device that streams, on which the theorems of
-- the application run.
use stabilizer.Prelude.{
  arith, ℕ, ◌≡◌, refl, true, false, List, [], ◌∷◌, ◌++◌, Option, some, none, replicate,
}
use stabilizer.Prelude.Results.{ok}
use stabilizer.Hardware.Afe.{g2, g5}
use stabilizer.Hardware.Codes.{dac_code}
use stabilizer.Hardware.SignalGenerator.{SignalGenerator, square, next_value}
use stabilizer.Hardware.Tests.{pins, hold}
use stabilizer.Hardware.Tests.Fixed.{Fixed, fixed, signed_fixed}
use stabilizer.Hardware.Tests.Signals.{counting}
use stabilizer.Net.DataStream.{StreamFrame, configure, new_generator}
use stabilizer.Net.DataStream.Tests.{counted, counted_laws, bounded, bounded_laws}
use stabilizer.Net.DataStream.System.{Reach}
use stabilizer.Net.DataStream.System.Tests.{keeping, keeping_closes, host, booted, booted-IsInitial}
use stabilizer.Net.DataStream.System.{here}
use stabilizer.Net.Telemetry.{default_buffer}
use stabilizer.Net.Tests.{network}
use stabilizer.Net.Users.{Parts, NetworkUsers}
use stabilizer.Net.Users.Tests.{scripted, client}
use stabilizer.Apps.DualIir.{
  Filters, DualIir, Processing, default_dual_iir, cascade, convert, convert_channel, process,
}
use stabilizer.Apps.DualIir.Batches.{process_held}
use stabilizer.Apps.DualIir.Runs.{Batch}
use stabilizer.Apps.DualIir.Follows.{RunsAs, process_all-Follows}
use stabilizer.Apps.DualIir.Stream.{Records, Reach-Records}
use stabilizer.Apps.DualIir.Tasks.{Outputs, Board, settings_update}
use stabilizer.Apps.DualIir.Tasks.Applies.{Applies, settings_update-Applies}

-- A gain, or the hold, which gives the last output again.
abbrev filtered : Option Fixed → Fixed → Fixed → Fixed × Fixed
filtered none last x = (last, last)
filtered (some gain) last x = (fixed.times gain x, fixed.times gain x)

abbrev gains : Filters fixed
gains = record {
  Biquad = Option Fixed;
  State = Fixed;
  identity = some (fixed.literal 1 1);
  hold = none;
  set_min = λ x b. b;
  set_max = λ x b. b;
  update = filtered;
  zero_state = (false, 0);
  to_int_unchecked = signed_fixed.as_i16;
}

abbrev silent : SignalGenerator counting
silent = record {
  phase_accumulator = 0;
  config = record {
    signal = square;
    amplitude = 0;
    phase_increment0 = 0;
    phase_increment1 = 0;
    phase_offset = 0;
  };
  rng = 0;
}

abbrev half : List (Option Fixed)
half = some (fixed.literal 1 2) ∷ some (fixed.literal 1 1) ∷ []

abbrev at_rest : List Fixed × SignalGenerator counting
at_rest = ((false, 0) ∷ (false, 0) ∷ [], silent)

-- A ramp is halved, in offset binary.
halved :
    (convert_channel fixed signed_fixed gains counting false half
      (100 ∷ 65436 ∷ [])
      (0 ∷ 0 ∷ [])
      at_rest).1
    ≡ 32818 ∷ 32718 ∷ []
unfolding convert_channel convert cascade dac_code next_value
halved = refl

abbrev settings : DualIir fixed signed_fixed gains
settings = record (default_dual_iir fixed signed_fixed gains) {
  afe = (g2, g5);
  force_hold = true;
  cpu_dac1 = 100;
  frontend_offset = 2000;
  stream_target = host;
}

abbrev processing : Processing fixed signed_fixed gains counting ℕ (List StreamFrame)
processing = record {
  telemetry = default_buffer;
  channel0 = at_rest;
  channel1 = at_rest;
  generator = booted.generator;
  free = 4;
  queued = [];
}

abbrev samples : List ℕ × List ℕ
samples = (replicate 8 100, replicate 8 65436)

abbrev zeros : List ℕ × List ℕ
zeros = (replicate 8 0, replicate 8 0)

-- Two batches that are filtered, the second one after the stream has sent a frame.
abbrev filtering : DualIir fixed signed_fixed gains
filtering = record settings { force_hold = false; iir_ch = (half, half) }

abbrev two_batches : List (Batch ℕ (List StreamFrame))
two_batches =
    record { digital_inputs = (false, true); adcs = samples; dacs = zeros; free = 4; queued = [] }
    ∷ record { digital_inputs = (true, false); adcs = zeros; dacs = samples; free = 3; queued = [] }
    ∷ []

process_all-Follows_example :
    RunsAs fixed signed_fixed gains counting counted bounded filtering false two_batches processing
unfolding new_generator configure
process_all-Follows_example =
    process_all-Follows fixed signed_fixed gains counting counted bounded bounded_laws filtering
      false two_batches processing
      (
        record { adc0 = refl; adc1 = refl; dac0 = refl; dac1 = refl; room = omega arith },
        (record { adc0 = refl; adc1 = refl; dac0 = refl; dac1 = refl; room = omega arith }, tt),
      )
      (refl, (refl, tt)) (record { filling = tt; word = omega arith })

process_held_example :
    process fixed signed_fixed gains counting counted bounded
      (record settings { iir_ch = (half, half) })
      (false, false)
      samples
      zeros
      processing
    ≡ process fixed signed_fixed gains counting counted bounded settings
        (false, false)
        samples
        zeros
        processing
process_held_example =
    process_held fixed signed_fixed gains counting counted bounded settings (false, false) samples
      zeros half half processing refl refl refl

-- A device that has booted.
abbrev fresh : Reach keeping bounded_laws 64 booted booted
fresh = here

Reach-Records_example :
    Records fixed signed_fixed gains counting counted_laws bounded_laws keeping_closes fresh
      (true, false)
      samples
      (process fixed signed_fixed gains counting counted bounded settings
        (true, false)
        samples
        zeros
        processing)
Reach-Records_example =
    Reach-Records fixed signed_fixed gains counting counted_laws bounded_laws keeping_closes 1
      settings (true, false) samples zeros processing booted-IsInitial fresh refl refl refl refl

abbrev outputs : Outputs
outputs = record {
  afe0 = pins;
  afe1 = pins;
  CpuDac = ℕ;
  set_value = λ value s. value;
  GpioDac = List ℕ;
  write = λ words s. (words ++ s, false);
}

abbrev parts : Parts (DualIir fixed signed_fixed gains) ℕ
parts = record {
  pool = counted;
  queue = bounded;
  udp = keeping;
  network = network;
  mqtt = scripted;
  miniconf = record { State = Unit {0}; Fault = Unit {0}; update = λ c s. (c, s, ok false) };
}

abbrev users : NetworkUsers parts
users = record {
  config = tt;
  processor = record { net = ([], 0); network_was_reset = false };
  stream = booted.stream;
  generator = none;
  telemetry = client;
}

abbrev board : Board fixed signed_fixed gains counting outputs parts
board = record {
  afe0 = (false, false);
  afe1 = (false, false);
  cpu_dac1 = 0;
  gpio_dac = [];
  signal_generator = (silent, silent);
  users = users;
  active_settings = default_dual_iir fixed signed_fixed gains;
}

settings_update-Applies_example :
    (c : Board fixed signed_fixed gains counting outputs parts) × (settings_update fixed
        signed_fixed gains counting outputs parts settings board
      ≡ some c)
    × Applies fixed signed_fixed gains counting outputs hold hold counted_laws bounded_laws
        keeping_closes settings board c
settings_update-Applies_example =
    settings_update-Applies fixed signed_fixed gains counting outputs hold hold counted_laws
      bounded_laws keeping_closes settings board
