-- ===== src/Ad9959/Driver/RoundTrip.antt =====
-- What is set in a channel reads back, on a board where the chip answers.
use stabilizer.Prelude.{
  ℕ, ◌+◌, ◌*◌, ◌/◌, ◌%◌, ◌≡◌, ◌<◌, ◌≤◌, ◌==◌, ◌&&◌, ltb, Bool, true, false, List, [], ◌∷◌, refl,
  arith, ap, sym, ◌∙◌, bit_or, bit_and, subst, test_bit, be16, be32, from_be16, from_be32,
}
use stabilizer.Prelude.Tables.{holds_below, holds_below_lem}
use stabilizer.Prelude.{Bool-cases, ltb→lt, inl, inr}
use stabilizer.Prelude.Results.{ok}
use stabilizer.Prelude.Effects.{Action}
use stabilizer.Prelude.Masks.{bit_and-mask10, bit_and-mask14}
use stabilizer.Prelude.Floats.{Floats, as_u16}
use stabilizer.Ad9959.{Register, Error}
use stabilizer.Ad9959.Serializer.Device.{width}
use stabilizer.Ad9959.Driver.{Board, BitFields, system_clock_frequency}
use stabilizer.Ad9959.Driver.Channels.{
  modify_channel, read_channel, set_phase, get_phase, set_amplitude, get_amplitude, set_frequency,
  get_frequency, tuning_word, phase_offset, phase_turns, amplitude_control, amplitude_bytes,
  amplitude_of, decoded,
}
use stabilizer.Ad9959.Driver.Chip.{Registers, store, stored, IsRead, Chip, Driver, Runs}
use stabilizer.Ad9959.Driver.Access.{
  flag, select_only, registers, moved, modify_channel-Runs, read_channel-Runs,
}
use stabilizer.Ad9959.Driver.Modified.{KeepsOthers, IsWord, stored-modified, modified-KeepsOthers}

from_be32-be32 : (n : ℕ) → n < 4294967296 → from_be32 (be32 n) ≡ n
from_be32-be32 n h = omega arith

phase_word : (n : ℕ) → bit_and (from_be16 (be16 (bit_and n 0x3FFF))) 0x3FFF ≡ bit_and n 0x3FFF
phase_word n = rw (bit_and-mask14 n, bit_and-mask14 (from_be16 (be16 (n % 16384)))) (omega arith)

-- The documented effect of `set_bit` and `get_bit` on bit 4 of a byte.
abbrev pub IsBit4 : BitFields → Type 0
IsBit4 bits =
    ((x : ℕ) → x < 16 → bits.set_bit x 4 true ≡ x + 16)
    × ((x : ℕ) → x < 32 → bits.get_bit x 4 ≡ test_bit x 4)

-- The bytes of a scaled amplitude read back.
abbrev reads_back : ℕ → Bool
reads_back n =
    let high = n / 256 % 256 + 16 in
    let word = bit_and (bit_or (high * 256) (n % 256)) 0x3FF in test_bit high 4 && (word == n)

reads_back_table : holds_below 1024 reads_back ≡ true
unfolding holds_below
reads_back_table = refl

module _ (floats : Floats) (bits : BitFields) (board : Board) (chip : Chip board) where
  open floats use {Float, from_nat, times, over, less, at_most}
  open board use {State}

  -- To divide by 2^32 before or after the multiplication by the clock is the same, as it is when
  -- nothing underflows.
  abbrev pub IsExact : Float → Type 0
  IsExact clock =
      (n : ℕ)
      → over (times (from_nat n) clock) (from_nat 4294967296)
        ≡ times (over (from_nat n) (from_nat 4294967296)) clock

  -- The first step succeeds with the value that the second then gives, which leaves the registers;
  -- the other channels keep their words.
  abbrev pub ReadsBack :
      ℕ
      → Action (Driver floats bits board chip) Error Float
      → Action (Driver floats bits board chip) Error Float
      → Driver floats bits board chip
      → Type 0
  ReadsBack c setter getter d =
      (value : Float) × (b : State) × (setter d ≡ (moved floats bits board chip d b, ok value))
      × Runs floats bits board chip getter (moved floats bits board chip d b) value (chip.view b)
      × KeepsOthers c (registers floats bits board chip d).dds (chip.view b).dds

  -- A word written to one channel is read back from it.
  word_reads_back :
      (c : ℕ) (reg : Register) (bytes : List ℕ) (d : Driver floats bits board chip)
      → c < 4
      → IsWord reg
      → IsRead reg
      → (b : State) × (modify_channel floats bits board (flag c) reg bytes d
          ≡ (moved floats bits board chip d b, ok tt))
        × Runs floats bits board chip
            (read_channel floats bits board (flag c) reg (width reg))
            (moved floats bits board chip d b)
            bytes
            (chip.view b)
        × KeepsOthers c (registers floats bits board chip d).dds (chip.view b).dds
  word_reads_back c reg bytes d hc word h =
      let mode = d.communication_mode in
      let old = registers floats bits board chip d in
      let (b, e, v) = modify_channel-Runs floats bits board chip (flag c) reg bytes d in
      let moved_d = moved floats bits board chip d b in
      let (b2, e2, v2) = read_channel-Runs floats bits board chip c reg moved_d hc h in
      let same =
        ap (λ r. stored reg (store Register.csr (select_only mode c ∷ []) r)) v
        ∙ stored-modified mode c reg bytes old hc word in
      (
        b,
        e,
        (b2, e2 ∙ ap (λ (x : List ℕ). (record moved_d { interface = b2 }, ok x)) same, v2),
        subst (λ (r : Registers). KeepsOthers c old.dds r.dds) (sym v)
            (modified-KeepsOthers mode c reg bytes old hc word),
      )

  -- On a board where the chip answers, for a channel below 4, a frequency from 0 to the system
  -- clock, and a clock at which the scaling by 2^32 is exact: set_frequency succeeds,
  -- get_frequency then gives the value that it returned and leaves every register as it was, and
  -- the other channels keep their words.
  pub set-get_frequency :
      (c : ℕ) (frequency : Float) (d : Driver floats bits board chip)
      → c < 4
      → less frequency (from_nat 0) ≡ false
      → less (system_clock_frequency floats bits board d) frequency ≡ false
      → IsExact (system_clock_frequency floats bits board d)
      → ReadsBack c
          (set_frequency floats bits board (flag c) frequency)
          (get_frequency floats bits board (flag c))
          d
  unfolding set_frequency get_frequency
  set-get_frequency c frequency d hc positive bounded exact =
      let word = tuning_word floats bits board frequency d in
      let (b, e, (b2, e2, v2), others) = word_reads_back c Register.cftw0 (be32 word) d hc tt tt in
      (
        times (over (from_nat word) (from_nat 4294967296))
            (system_clock_frequency floats bits board d),
        b,
        rw (positive, bounded, e) refl,
        (
          b2,
          rw (e2, from_be32-be32 word (omega arith))
              (ap (λ x. (moved floats bits board chip d b2, ok x)) (exact word)),
          v2,
        ),
        others,
      )

  -- On a board where the chip answers, for a channel below 4: set_phase succeeds for every phase,
  -- get_phase then gives the value that it returned and leaves every register as it was, and the
  -- other channels keep their words.
  pub set-get_phase :
      (c : ℕ) (turns : Float) (d : Driver floats bits board chip)
      → c < 4
      → ReadsBack c
          (set_phase floats bits board (flag c) turns)
          (get_phase floats bits board (flag c))
          d
  unfolding set_phase get_phase
  set-get_phase c turns d hc =
      let word = phase_offset floats bits board turns in
      let (b, e, (b2, e2, v2), others) = word_reads_back c Register.cpow0 (be16 word) d hc tt tt in
      (
        phase_turns floats bits board word,
        b,
        rw e refl,
        (b2, rw (e2, phase_word (as_u16 floats (times turns (from_nat 16384)))) refl, v2),
        others,
      )

  -- A normalized amplitude fits the scale, whose full value is 1.
  abbrev pub IsScaled : Float → Type 0
  IsScaled amplitude =
      (amplitude_control floats bits board amplitude ≤ 1024)
      × (over (from_nat 1024) (from_nat 1024) ≡ from_nat 1)

  decoded-scaled :
      (control : ℕ)
      → IsBit4 bits
      → control < 1024
      → decoded floats bits board (amplitude_bytes floats bits board control)
        ≡ amplitude_of floats bits board control
  decoded-scaled control (sets, gets) small =
      let table = holds_below_lem 1024 reads_back reads_back_table control small in
      let masked : bit_and control 0x3FF ≡ control = bit_and-mask10 control ∙ omega arith in
      let high = control / 256 % 256 in
      let less : ltb control 1024 ≡ true = ground arith in
      let bit_set : test_bit (high + 16) 4 ≡ true = ground (arith, table) in
      let word : bit_and (bit_or ((high + 16) * 256) (control % 256)) 0x3FF ≡ control =
        ground (arith, table) in
      rw (less, masked, sets high (omega arith), gets (high + 16) (omega arith), bit_set, word) refl

  decoded-full :
      IsBit4 bits
      → over (from_nat 1024) (from_nat 1024) ≡ from_nat 1
      → decoded floats bits board (amplitude_bytes floats bits board 1024)
        ≡ amplitude_of floats bits board 1024
  decoded-full (sets, gets) full = rw (gets 0 (omega arith)) (sym full)

  decoded-amplitude_bytes :
      (control : ℕ)
      → IsBit4 bits
      → control ≤ 1024
      → over (from_nat 1024) (from_nat 1024) ≡ from_nat 1
      → decoded floats bits board (amplitude_bytes floats bits board control)
        ≡ amplitude_of floats bits board control
  decoded-amplitude_bytes control bit4 small full = elim (Bool-cases (ltb control 1024)) [
    | inl below ↦ decoded-scaled control bit4 (ltb→lt control 1024 below)
    | inr above ↦
        let top : 1024 ≡ control = ground arith in
        subst
          (λ (n : ℕ).
            decoded floats bits board (amplitude_bytes floats bits board n)
            ≡ amplitude_of floats bits board n)
          top (decoded-full bit4 full)
  ]

  -- On a board where the chip answers, for a channel below 4, an amplitude from 0 to 1 whose code
  -- is at most 1024 where 1024 / 1024 is 1, and bit operations with their documented effect on bit
  -- 4: set_amplitude succeeds, get_amplitude then gives the value that it returned (with the
  -- multiplier off at full scale) and leaves every register as it was, and the other channels keep
  -- their words.
  pub set-get_amplitude :
      (c : ℕ) (amplitude : Float) (d : Driver floats bits board chip)
      → c < 4
      → at_most (from_nat 0) amplitude ≡ true
      → at_most amplitude (from_nat 1) ≡ true
      → IsScaled amplitude
      → IsBit4 bits
      → ReadsBack c
          (set_amplitude floats bits board (flag c) amplitude)
          (get_amplitude floats bits board (flag c))
          d
  unfolding set_amplitude get_amplitude
  set-get_amplitude c amplitude d hc low high (small, full) bit4 =
      let control = amplitude_control floats bits board amplitude in
      let acr = amplitude_bytes floats bits board control in
      let (b, e, (b2, e2, v2), others) = word_reads_back c Register.acr acr d hc tt tt in
      (
        amplitude_of floats bits board control,
        b,
        rw (low, high, e) refl,
        (b2, rw (e2, decoded-amplitude_bytes control bit4 small full) refl, v2),
        others,
      )
