-- ===== src/Hardware/Tests.antt =====
-- A bus that answers at its third read, and pins that are two Booleans.
pub mod Fixed
pub mod Sampling
pub mod Signals
use stabilizer.Prelude.{
  ℕ, ◌+◌, ◌≡◌, Bool, false, List, [], ◌∷◌, some, refl, arith, if◌then◌else◌, ltb, arith,
}
use stabilizer.Prelude.Results.{ok, err}
use stabilizer.Hardware.Eeprom.{Bus, read_loop, read_eui48}
use stabilizer.Hardware.Eeprom.Agreement.{Agree, read_eui48-Agree, read_loop-Answers}
use stabilizer.Hardware.SignalGenerator.{Sources, Config, square, SignalGenerator, next_value}
use stabilizer.Hardware.SignalGenerator.Waves.{after, square_value, after-square, negate16}
use stabilizer.Hardware.Afe.{Pins, PinsHold}

abbrev mac : List ℕ
mac = 4 ∷ 0x91 ∷ 0x62 ∷ 0xd2 ∷ 0xa8 ∷ 0x6f ∷ []

-- The state counts the reads.
abbrev slow_bus : Bus
slow_bus = record {
  State = ℕ;
  Fault = Unit {0};
  read = λ n. if ltb n 2 then (n + 1, err tt) else (n + 1, ok mac);
  delay_ms = λ ms n. n;
}

slow_read : read_eui48 slow_bus 0 ≡ some (4, mac)
unfolding read_eui48 read_loop
slow_read = refl

read_eui48-Agree_example : Agree slow_bus mac 4
read_eui48-Agree_example = read_eui48-Agree slow_bus 0 4 mac slow_read

abbrev good_bus : Bus
good_bus = record {
  State = Unit {0};
  Fault = Unit {0};
  read = λ s. (s, ok mac);
  delay_ms = λ ms s. s;
}

read_loop-Answers_example : (u : Unit {0}) × (read_loop good_bus 5 (some []) tt ≡ some (u, mac))
read_loop-Answers_example = read_loop-Answers good_bus 3 mac (some []) tt (λ s. (s, refl))

abbrev pub pins : Pins
pins = record {
  State = Bool × Bool;
  set_a0 = λ level s. some (level, s.1);
  set_a1 = λ level s. some (s.0, level);
  is_a0_high = λ s. some s.0;
  is_a1_high = λ s. some s.1;
}

abbrev pub hold : PinsHold pins
hold = record {
  a0 = λ s. s.0;
  a1 = λ s. s.1;
  set_a0_lem = λ level s. ((level, s.1), refl, refl, refl);
  set_a1_lem = λ level s. ((s.0, level), refl, refl, refl);
  is_a0_high_lem = λ s. refl;
  is_a1_high_lem = λ s. refl;
}

abbrev sources : Sources
sources = record { Rng = ℕ; seeded = 1; next_u32 = λ n. (n + 1, n); cosine_of = λ phase. 0 }

abbrev wave_config : Config
wave_config = record {
  signal = square;
  amplitude = 1000;
  phase_increment0 = 0x40000000;
  phase_increment1 = 0x40000000;
  phase_offset = 0;
}

abbrev generator : SignalGenerator sources
generator = record { phase_accumulator = 0; config = wave_config; rng = 1 }

-- A quarter of a period per value: the fourth value is in the second half.
after-square_example :
    (next_value sources (after sources 3 generator)).1 ≡ square_value sources 3 0x40000000 generator
after-square_example =
    after-square sources 3 0x40000000 generator (refl, refl) refl (omega arith) (omega arith)

fourth_value : square_value sources 3 0x40000000 generator ≡ negate16 1000
fourth_value = refl
