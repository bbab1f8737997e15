-- ===== src/Hardware/SignalGenerator.antt =====
-- src/hardware/signal_generator.rs: the generator. An i16 or i32 is its two's complement bit
-- pattern. The cosine of idsp and the random numbers of rand_xorshift are parameters.
pub mod Waves
pub mod Conversion
use stabilizer.Prelude.{
  ℕ, ◌+◌, ◌*◌, ◌-◌, ◌/◌, ◌%◌, ltb, not, if◌then◌else◌, Bool, true, false, u16, u32,
}

-- `x.is_negative()` of an i32, and `x as i32` of an i16.
abbrev pub is_negative : ℕ → Bool
is_negative x = not (ltb x 2147483648)

abbrev pub sign_extend : ℕ → ℕ
sign_extend x = if ltb x 32768 then x else x + 4294901760

-- `-x`, `x.abs()` and `x >> n` of an i32, the last with `divisor` 2^n: a negative number is rounded
-- down.
abbrev pub negate : ℕ → ℕ
negate x = u32 (4294967296 - x)

abbrev pub absolute : ℕ → ℕ
absolute x = if is_negative x then negate x else x

abbrev pub shift_right : ℕ → ℕ → ℕ
shift_right x divisor =
    if is_negative x then 4294967296 - (4294967296 - x + (divisor - 1)) / divisor else x / divisor

-- `i16::MIN as i32`.
abbrev pub min_i16 : ℕ
min_i16 = 4294934528

pub data Signal : Type 0 where
  cosine square triangle white_noise : Signal

pub record Config : Type 0 where
  pub signal : Signal
  pub amplitude : ℕ
  pub phase_increment0 : ℕ
  pub phase_increment1 : ℕ
  pub phase_offset : ℕ

-- `idsp::cossin(phase).0`, and `rng.next_u32()`.
pub record Sources : Type 1 where
  pub Rng : Type 0
  pub seeded : Rng
  pub next_u32 : Rng → Rng × ℕ
  pub cosine_of : ℕ → ℕ

module _ (sources : Sources) where
  open sources use {Rng}

  pub record SignalGenerator : Type 0 where
    pub phase_accumulator : ℕ
    pub config : Config
    pub rng : Rng

  unfoldable pub new : Config → SignalGenerator
  new config = record { phase_accumulator = 0; config = config; rng = sources.seeded }

  unfoldable pub update_waveform : Config → SignalGenerator → SignalGenerator
  update_waveform config g = record g { config = config }

  unfoldable pub clear_phase_accumulator : SignalGenerator → SignalGenerator
  clear_phase_accumulator g = record g { phase_accumulator = 0 }

  -- The scale of a phase, with the random numbers that are left.
  scale : Signal → ℕ → Rng → Rng × ℕ
  scale cosine phase rng = (rng, shift_right (sources.cosine_of phase) 65536)
  scale square phase rng = (rng, if is_negative phase then min_i16 else negate min_i16)
  scale triangle phase rng = (rng, u32 (min_i16 + absolute (shift_right phase 32768)))
  scale white_noise phase rng = let (rng, n) = sources.next_u32 rng in (rng, shift_right n 65536)

  -- `((amplitude as i32 * scale) >> 15) as i16`.
  abbrev pub output : ℕ → ℕ → ℕ
  output amplitude scale = u16 (shift_right (u32 (sign_extend amplitude * scale)) 32768)

  abbrev pub phase_of : SignalGenerator → ℕ
  phase_of g = u32 (g.phase_accumulator + g.config.phase_offset)

  -- The value of `next`, which is never none.
  unfoldable pub next_value : SignalGenerator → SignalGenerator × ℕ
  unfolding scale
  next_value g =
      let phase = phase_of g in
      let increment =
        if is_negative phase then g.config.phase_increment1 else g.config.phase_increment0 in
      let (rng, s) = scale g.config.signal phase g.rng in
      (
        record g { phase_accumulator = u32 (g.phase_accumulator + increment); rng = rng },
        output g.config.amplitude s,
      )
