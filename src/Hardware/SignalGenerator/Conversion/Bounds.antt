-- ===== src/Hardware/SignalGenerator/Conversion/Bounds.antt =====
-- A configuration that is accepted runs forward, at most half a turn a sample.
use stabilizer.Prelude.{
  ℕ, ◌≡◌, ◌<◌, ◌+◌, arith, subst, refl, u32, Bool, true, false, ◌||◌, if◌then◌else◌, Bool-cases,
  inl, inr,
}
use stabilizer.Prelude.Results.{ok, err}
use stabilizer.Prelude.Floats.{Floats, SignedFloats}
use stabilizer.Hardware.SignalGenerator.{
  Config, Sources, SignalGenerator, is_negative, update_waveform, next_value,
}
use stabilizer.Hardware.SignalGenerator.Conversion.{
  Error, BasicConfig, tuning_word, increment, try_into_config,
}

-- A cast of a number that is not negative is not, and neither is a quotient of such numbers.
pub record Forward (floats : Floats) (signed : SignedFloats floats) : Type 0 where
  pub cast_lem :
      (x : floats.Float) → floats.less x (floats.literal 0 1) ≡ false → signed.as_i32 x < 2147483648
  pub over_lem :
      (x y : floats.Float)
      → floats.less x (floats.literal 0 1) ≡ false
      → floats.less x (floats.times y (floats.from_nat 2147483648)) ≡ true
      → floats.less (floats.over x y) (floats.literal 0 1) ≡ false
  pub nyquist_lem : floats.less (floats.from_nat 2147483648) (floats.literal 0 1) ≡ false

module _ {floats : Floats} {signed : SignedFloats floats} (forward : Forward floats signed) where
  open floats use {Float, less, literal, times}
  open signed use {as_i32}

  increment_lem :
      (part ftw : Float)
      → less ftw (literal 0 1) ≡ false
      → as_i32 (increment floats signed part ftw) < 2147483648
  increment_lem part ftw h =
      elim (Bool-cases (less ftw (times part (floats.from_nat 2147483648)))) [
        | inl below ↦ forward.cast_lem _ (rw below (forward.over_lem ftw part h below))
        | inr clipped ↦ forward.cast_lem _ (rw clipped forward.nyquist_lem)
      ]

  -- What is accepted has passed the checks.
  passed :
      (a b c : Bool) (e e' e'' : Error) (config config' : Config)
      → (if a then err e else if b then err e' else if c then ok config else err e'') ≡ ok config'
      → (b ≡ false) × (config ≡ config')
  passed true b c e e' e'' config config' h = cc
  passed false true c e e' e'' config config' h = cc
  passed false false true e e' e'' config config' h = (refl, cc)
  passed false false false e e' e'' config config' h = cc

  or_false : (a b : Bool) → (a || b) ≡ false → a ≡ false
  or_false a b h = ground arith

  increments_lem :
      (sample_period full_scale : Float) (basic : BasicConfig floats signed) (config : Config)
      → try_into_config floats signed sample_period full_scale basic ≡ ok config
      → (config.phase_increment0 < 2147483648) × (config.phase_increment1 < 2147483648)
  unfolding try_into_config
  increments_lem sample_period full_scale basic config e =
      let ftw = tuning_word floats signed basic sample_period in
      let (b, same) = passed _ _ _ _ _ _ _ _ e in
      let forward_word = or_false _ _ b in
      (
        subst (λ (c : Config). c.phase_increment0 < 2147483648) same
            (increment_lem basic.symmetry ftw forward_word),
        subst (λ (c : Config). c.phase_increment1 < 2147483648) same
            (increment_lem (signed.minus (literal 1 1) basic.symmetry) ftw forward_word),
      )

  module _ (sources : Sources) where
    -- The next value moves the phase forward, by less than half a turn.
    abbrev pub Advances : SignalGenerator sources → SignalGenerator sources → Type 0
    Advances g h =
        (step : ℕ) × (step < 2147483648) × (h.phase_accumulator ≡ u32 (g.phase_accumulator + step))

    advance :
        (config : Config) (g : SignalGenerator sources) (sign : Bool)
        → config.phase_increment0 < 2147483648
        → config.phase_increment1 < 2147483648
        → (step : ℕ) × (step < 2147483648)
          × (u32 (
                g.phase_accumulator
                + (if sign then config.phase_increment1 else config.phase_increment0))
              ≡ u32 (g.phase_accumulator + step))
    advance config g true h k = (config.phase_increment1, k, refl)
    advance config g false h k = (config.phase_increment0, h, refl)

    -- For f32 whose casts and quotients of numbers that are not negative are not, and a basic
    -- configuration that is accepted: a generator with the waveform moves its phase forward at the
    -- next value, by less than half a turn.
    pub next_value-Advances :
        (sample_period full_scale : Float) (basic : BasicConfig floats signed) (config : Config)
        (g : SignalGenerator sources)
        → try_into_config floats signed sample_period full_scale basic ≡ ok config
        → Advances g (next_value sources (update_waveform sources config g)).0
    unfolding next_value update_waveform
    next_value-Advances sample_period full_scale basic config g e =
        let (h, k) = increments_lem sample_period full_scale basic config e in
        advance config g (is_negative (u32 (g.phase_accumulator + config.phase_offset))) h k
