-- ===== src/Ad9959/Driver/Multiplier.antt =====
-- The clock multiplier reads back from FR1, on a board where the chip answers.
use stabilizer.Prelude.{
  ℕ, ◌≡◌, ◌<◌, Bool, true, List, [], ◌∷◌, refl, arith, ◌∙◌, get_or, set, length,
}
use stabilizer.Prelude.Results.{ok}
use stabilizer.Prelude.Floats.{Floats}
use stabilizer.Ad9959.{Register}
use stabilizer.Ad9959.Driver.{
  Board, BitFields, write_clock, get_reference_clock_multiplier, configure_system_clock,
  is_multiplier, clock_bits,
}
use stabilizer.Ad9959.Driver.Chip.{store, stored, Chip, Driver, Runs, write-Runs, read-Runs}
use stabilizer.Ad9959.Driver.Access.{registers, moved, IsField}
use stabilizer.Ad9959.Driver.Clock.{IsAllowed}

get_or-set : (l : List ℕ) (v : ℕ) → 0 < length l → get_or (set l 0 v) 0 0 ≡ v
get_or-set [] v h = absurd (omega arith)
get_or-set (x ∷ l) v h = refl

-- Bit 7 is outside the field of the multiplier.
abbrev pub KeepsMultiplier : BitFields → Type 0
KeepsMultiplier bits =
    (x : ℕ) (v : Bool) → x < 256 → bits.get_bits (bits.set_bit x 7 v) 2 7 ≡ bits.get_bits x 2 7

module _ (floats : Floats) (bits : BitFields) (board : Board) (chip : Chip board) where
  open floats use {Float, from_nat, times, less}
  open board use {State}

  is_multiplier-lt : (m : ℕ) → is_multiplier floats bits board m ≡ true → m < 32
  is_multiplier-lt m h = ground arith

  -- The driver that `configure_system_clock` leaves, on a state of the board.
  abbrev clocked : Float → ℕ → Driver floats bits board chip → State → Driver floats bits board chip
  clocked reference m d b = record d {
    interface = b;
    reference_clock_frequency = reference;
    system_clock_multiplier = m;
  }

  -- The configuration succeeds with the frequency, the multiplier is read back, and the words of the
  -- channels are as they were.
  abbrev pub Configures : Float → ℕ → Driver floats bits board chip → Type 0
  Configures reference m d =
      (b : State) × (configure_system_clock floats bits board reference m d
        ≡ (clocked reference m d b, ok (times (from_nat m) reference)))
      × Runs floats bits board chip (get_reference_clock_multiplier floats bits board)
          (clocked reference m d b) m (chip.view b)
      × ((chip.view b).dds ≡ (registers floats bits board chip d).dds)

  -- On a board where the chip answers, for a multiplier of 1 or 4 to 20 whose product with the
  -- reference is at most 500 MHz, bit fields with their documented effect on FR1, and a first byte
  -- of FR1 that is a byte: the configuration succeeds with that product, the multiplier reads
  -- back, and the words of the channels are as they were.
  pub configure-get_multiplier :
      (reference : Float) (m : ℕ) (d : Driver floats bits board chip)
      → IsAllowed floats bits board reference m
      → IsField bits 2 7
      → KeepsMultiplier bits
      → 0 < length (registers floats bits board chip d).fr1
      → get_or (registers floats bits board chip d).fr1 0 0 < 256
      → Configures reference m d
  unfolding configure_system_clock write_clock get_reference_clock_multiplier store stored
  configure-get_multiplier reference m d (allowed, slow) field keeps some_bytes byte =
      let start : Driver floats bits board chip = record d {
        reference_clock_frequency = reference;
      } in
      let fr1 = (registers floats bits board chip d).fr1 in
      let vco_range = less (from_nat 255000000) (times (from_nat m) reference) in
      let bytes = clock_bits floats bits board m vco_range fr1 in
      let (got, in_byte) = field (get_or fr1 0 0) m byte (is_multiplier-lt m allowed) in
      let (b, e, v) = read-Runs floats bits board chip Register.fr1 start tt in
      let (b2, e2, v2) =
        write-Runs floats bits board chip Register.fr1 bytes
          (moved floats bits board chip start b) in
      let (b3, e3, v3) =
        read-Runs floats bits board chip Register.fr1 (clocked reference m d b2) tt in
      let first = bits.set_bit (bits.set_bits (get_or fr1 0 0) 2 7 m) 7 vco_range in
      let read_back = keeps (bits.set_bits (get_or fr1 0 0) 2 7 m) vco_range in_byte ∙ got in
      (
        b2,
        rw (allowed, slow, e, e2) refl,
        (b3, rw (e3, v2, get_or-set fr1 first some_bytes, read_back) refl, v3),
        rw (v2, v) refl,
      )
