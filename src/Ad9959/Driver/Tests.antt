-- ===== src/Ad9959/Driver/Tests.antt =====
-- A board whose chip is its registers meets the contract; the theorems run over it.
use stabilizer.Prelude.{
  ℕ, ◌+◌, ◌*◌, ◌/◌, ◌%◌, ◌^◌, ◌-◌, ◌≡◌, ltb, leb, true, false, [], ◌∷◌, refl, arith, ap₂, test_bit,
  if◌then◌else◌, some, none,
}
use stabilizer.Prelude.Results.{ok, err}
use stabilizer.Prelude.Floats.{Floats}
use stabilizer.Ad9959.{four_bit_serial}
use stabilizer.Ad9959.Serializer.Device.{register_at, register_at-address, accept}
use stabilizer.Ad9959.Driver.{Board, BitFields, configure_system_clock, new}
use stabilizer.Ad9959.Driver.Channels.{
  self_test, set_amplitude, get_amplitude, set_frequency, get_frequency,
}
use stabilizer.Ad9959.Driver.Chip.{Registers, store, stored, Chip, Driver, Runs}
use stabilizer.Ad9959.Driver.Access.{flag, self_test-Runs}
use stabilizer.Ad9959.Driver.RoundTrip.{ReadsBack, set-get_frequency, set-get_amplitude}
use stabilizer.Ad9959.Driver.Clock.{IsAllowed, new-ok}
use stabilizer.Ad9959.Driver.Multiplier.{KeepsMultiplier, configure-get_multiplier, Configures}

-- Fractions, and numbers in units of 2^-14.
abbrev pub fractions : Floats
fractions = record {
  Float = ℕ × ℕ;
  from_nat = λ n. (n, 1);
  literal = λ n d. (n, d);
  times = λ x y. (x.0 * y.0, x.1 * y.1);
  over = λ x y. (x.0 * y.1, x.1 * y.0);
  less = λ x y. ltb (x.0 * y.1) (y.0 * x.1);
  at_most = λ x y. leb (x.0 * y.1) (y.0 * x.1);
  integer_part = λ x. x.0 / x.1;
}

abbrev fixed_point : Floats
fixed_point = record {
  Float = ℕ;
  from_nat = λ n. n * 16384;
  literal = λ n d. n * 16384 / d;
  times = λ x y. x * y / 16384;
  over = λ x y. x * 16384 / y;
  less = ltb;
  at_most = leb;
  integer_part = λ x. x / 16384;
}

abbrev fields : BitFields
fields = record {
  get_bits = λ x low high. x / 2 ^ low % 2 ^ (high - low);
  set_bits = λ x low high v. x / 2 ^ high * 2 ^ high + v * 2 ^ low + x % 2 ^ low;
  get_bit = test_bit;
  set_bit = λ x bit v. x / 2 ^ (bit + 1) * 2 ^ (bit + 1) + (if v then 2 ^ bit else 0) + x % 2 ^ bit;
}

abbrev board : Board
board = record {
  State = Registers;
  Fault = Unit {0};
  configure_mode = λ mode s. (s, ok tt);
  write = λ a bytes s. elim (register_at a) [
    | none ↦ (s, err tt)
    | some reg ↦ (store reg bytes s, ok tt)
  ];
  read = λ a len s. elim (register_at a) [ none ↦ (s, err tt) | some reg ↦ (s, ok (stored reg s)) ];
  set_reset_pin = λ level s. (s, ok tt);
  set_io_update = λ level s. (s, ok tt);
  delay_us = λ n s. s;
}

abbrev chip : Chip board
chip = record {
  view = λ s. s;
  write_lem = λ reg bytes s. (store reg bytes s, rw (register_at-address reg, board) refl, refl);
  read_lem = λ reg s h. (s, rw (register_at-address reg, board) refl, refl);
}

abbrev reset : Registers
reset = record {
  dds = record {
    select = 240;
    frequency = λ c. 0 ∷ 0 ∷ 0 ∷ 0 ∷ [];
    phase = λ c. 0 ∷ 0 ∷ [];
    amplitude = λ c. 0 ∷ 0 ∷ 0 ∷ [];
    ramp_rate = λ c. 0 ∷ 0 ∷ [];
  };
  fr1 = 0 ∷ 0 ∷ 0 ∷ [];
}

abbrev exact_driver : Driver fractions fields board chip
exact_driver = record {
  interface = reset;
  reference_clock_frequency = (100000000, 1);
  system_clock_multiplier = 5;
  communication_mode = four_bit_serial;
}

abbrev Set10mhz : Type 0
Set10mhz =
    ReadsBack fractions fields board chip 2
      (set_frequency fractions fields board (flag 2) (10000000, 1))
      (get_frequency fractions fields board (flag 2)) exact_driver

set-get_frequency_example : Set10mhz
set-get_frequency_example =
    set-get_frequency fractions fields board chip 2 (10000000, 1) exact_driver (omega arith) refl
      refl (λ n. ap₂ (λ (a b : ℕ). (a, b)) (omega arith) (omega arith))

abbrev driver : Driver fixed_point fields board chip
driver = record {
  interface = reset;
  reference_clock_frequency = 100000000 * 16384;
  system_clock_multiplier = 5;
  communication_mode = four_bit_serial;
}

set-get_amplitude_example :
    ReadsBack fixed_point fields board chip 3
      (set_amplitude fixed_point fields board (flag 3) 8192)
      (get_amplitude fixed_point fields board (flag 3))
      driver
set-get_amplitude_example =
    set-get_amplitude fixed_point fields board chip 3 8192 driver (omega arith) refl refl
      (omega arith, refl) (λ x h. omega arith, λ x h. refl)

self_test_example :
    Runs fixed_point fields board chip (self_test fixed_point fields board) driver true reset
self_test_example =
    self_test-Runs fixed_point fields board chip driver (λ x v hx hv. (omega arith, omega arith))
      (omega arith)

fields-KeepsMultiplier : KeepsMultiplier fields
fields-KeepsMultiplier x true h = omega arith
fields-KeepsMultiplier x false h = omega arith

configure-get_multiplier_example :
    Configures fixed_point fields board chip (100000000 * 16384) 5 driver
configure-get_multiplier_example =
    configure-get_multiplier fixed_point fields board chip (100000000 * 16384) 5 driver (refl, refl)
      (λ x v hx hv. (omega arith, omega arith)) fields-KeepsMultiplier (omega arith) (omega arith)

-- A driver that the constructor gives.
abbrev built : Driver fixed_point fields board chip
built = (new fixed_point fields board reset four_bit_serial (100000000 * 16384) 5).0

built-new :
    new fixed_point fields board reset four_bit_serial (100000000 * 16384) 5 ≡ (built, ok tt)
unfolding new store stored register_at configure_system_clock accept
built-new = refl

new-ok_example :
    IsAllowed fixed_point fields board (100000000 * 16384) 5
    × (built.reference_clock_frequency ≡ 100000000 * 16384)
    × (built.system_clock_multiplier ≡ 5)
    × (built.communication_mode ≡ four_bit_serial)
new-ok_example =
    new-ok fixed_point fields board reset four_bit_serial (100000000 * 16384) 5 built built-new
