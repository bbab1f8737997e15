-- ===== src/Hardware/SignalGenerator/Waves.antt =====
-- What the generator puts out.
use stabilizer.Prelude.{
  ℕ, zero, suc, ◌+◌, ◌*◌, ◌-◌, ◌≡◌, ◌<◌, Bool-cases, inl, inr, refl, arith, ap, ap₂, ◌∙◌,
  if◌then◌else◌, Bool, true, false, u16, u32,
}
use stabilizer.Hardware.SignalGenerator.{
  square, Config, Sources, SignalGenerator, is_negative, negate, min_i16, output, phase_of,
  next_value, scale,
}

-- `-x` of an i16, whose least value is its own negative.
abbrev pub negate16 : ℕ → ℕ
negate16 x = u16 (65536 - x)

wrapped : (a b c d : ℕ) → d ≡ c + b → u32 (u32 (a + b) + c) ≡ u32 (a + d)
wrapped a b c d h = omega arith

wrapped_once : (a b : ℕ) → u32 (u32 a + b) ≡ u32 (a + b)
wrapped_once a b = omega arith

module _ (sources : Sources) where
  output-positive : (a : ℕ) → a < 65536 → output sources a (negate min_i16) ≡ a
  output-positive a h = grind arith

  output-negative : (a : ℕ) → a < 65536 → output sources a min_i16 ≡ negate16 a
  output-negative a h = grind arith

  -- The generator after a number of values.
  abbrev pub after : ℕ → SignalGenerator sources → SignalGenerator sources
  after zero g = g
  after (suc n) g = after n (next_value sources g).0

  -- The increment does not depend on the phase.
  abbrev pub IsEven : ℕ → SignalGenerator sources → Type 0
  IsEven increment g =
      (g.config.phase_increment0 ≡ increment) × (g.config.phase_increment1 ≡ increment)

  next_accumulator :
      (increment : ℕ) (g : SignalGenerator sources)
      → IsEven increment g
      → ((next_value sources g).0.phase_accumulator ≡ u32 (g.phase_accumulator + increment))
        × ((next_value sources g).0.config ≡ g.config)
  unfolding next_value
  next_accumulator increment g (e0, e1) = elim (Bool-cases (is_negative (phase_of sources g))) [
    | inl low ↦ rw (low, e1) (refl, refl)
    | inr high ↦ rw (high, e0) (refl, refl)
  ]

  after_lem :
      (n increment : ℕ) (g : SignalGenerator sources)
      → IsEven increment g
      → g.phase_accumulator < 4294967296
      → ((after n g).phase_accumulator ≡ u32 (g.phase_accumulator + n * increment))
        × ((after n g).config ≡ g.config)
  after_lem zero increment g even small = (omega arith, refl)
  after_lem (suc n) increment g (e0, e1) small =
      let (next_acc, same) = next_accumulator increment g (e0, e1) in
      let even : IsEven increment (next_value sources g).0 =
        (ap (λ c. c.phase_increment0) same ∙ e0, ap (λ c. c.phase_increment1) same ∙ e1) in
      let (acc, kept) =
        after_lem n increment (next_value sources g).0 even (omega (arith, next_acc)) in
      (
        acc
            ∙ ap (λ a. u32 (a + n * increment)) next_acc
            ∙ wrapped g.phase_accumulator increment (n * increment) (suc n * increment)
                (omega arith),
        kept ∙ same,
      )

  output_square :
      (b : Bool) (a : ℕ)
      → a < 65536
      → output sources a (if b then min_i16 else negate min_i16) ≡ (if b then negate16 a else a)
  output_square true a h = output-negative a h
  output_square false a h = output-positive a h

  next_square :
      (g : SignalGenerator sources)
      → g.config.signal ≡ square
      → g.config.amplitude < 65536
      → (next_value sources g).1 ≡ (
          if is_negative (phase_of sources g)
          then negate16 g.config.amplitude
          else g.config.amplitude)
  unfolding next_value scale
  next_square g is_square small =
      let phase = phase_of sources g in
      ap (λ signal. output sources g.config.amplitude (scale sources signal phase g.rng).1)
        is_square
      ∙ output_square (is_negative phase) g.config.amplitude small

  -- What a square wave puts out after `n` values: the amplitude while the phase is not negative,
  -- and its negative otherwise.
  abbrev pub square_value : ℕ → ℕ → SignalGenerator sources → ℕ
  square_value n increment g =
      if is_negative (u32 (g.phase_accumulator + n * increment + g.config.phase_offset))
      then negate16 g.config.amplitude
      else g.config.amplitude

  wave : ℕ → Config → ℕ
  wave accumulator config =
      if is_negative (u32 (accumulator + config.phase_offset))
      then negate16 config.amplitude
      else config.amplitude

  -- For a square wave whose two increments are the same, from an accumulator and an amplitude that
  -- are bit patterns: after n values the next is the amplitude if the phase, the accumulator with
  -- n increments and the offset modulo 2^32, is not negative, and the negative of the amplitude
  -- otherwise, which is the amplitude again if it is the least i16.
  pub after-square :
      (n increment : ℕ) (g : SignalGenerator sources)
      → IsEven increment g
      → g.config.signal ≡ square
      → g.phase_accumulator < 4294967296
      → g.config.amplitude < 65536
      → (next_value sources (after n g)).1 ≡ square_value n increment g
  unfolding wave
  after-square n increment g even is_square small amplitude =
      let (acc, same) = after_lem n increment g even small in
      let there = after n g in
      let value = next_square there (ap (λ c. c.signal) same ∙ is_square) (rw same amplitude) in
      value
      ∙ ap₂ wave acc same
      ∙ ap (λ p. if is_negative p then negate16 g.config.amplitude else g.config.amplitude)
          (wrapped_once (g.phase_accumulator + n * increment) g.config.phase_offset)
