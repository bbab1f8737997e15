-- ===== src/Apps/DualIir/Reference.antt =====
-- The processing of src/bin/dual-iir.rs against a reference that filters and generates separately.
-- The loop takes one sample through all filters; the reference takes all samples through one filter.
use stabilizer.Prelude.{
  ℕ, zero, suc, ◌≡◌, refl, ap, arith, if◌then◌else◌, Bool, List, [], ◌∷◌, map, length,
}
use stabilizer.Prelude.Floats.{Floats, SignedFloats}
use stabilizer.Hardware.Codes.{dac_code, saturating_add}
use stabilizer.Hardware.SignalGenerator.{Sources, SignalGenerator, next_value}
use stabilizer.Apps.DualIir.{Filters, cascade, convert, convert_channel}

module _ (floats : Floats) (signed : SignedFloats floats) (filters : Filters floats)
    (sources : Sources) where
  open floats use {Float}
  open filters use {Biquad, State}

  abbrev Channel : Type 0
  Channel = List State × SignalGenerator sources

  -- All samples through one filter.
  abbrev pub filtered : Biquad → State → List Float → State × List Float
  filtered b s [] = (s, [])
  filtered b s (y ∷ ys) =
      let (s, z) = filters.update b s y in let (s, zs) = filtered b s ys in (s, z ∷ zs)

  -- All samples through the filters, or as often through the filter that holds.
  abbrev pub all_filtered : Bool → List Biquad → List State → List Float → List State × List Float
  all_filtered hold [] states ys = (states, ys)
  all_filtered hold (b ∷ bs) [] ys = ([], ys)
  all_filtered hold (b ∷ bs) (s ∷ states) ys =
      let (s, zs) = filtered (if hold then filters.hold else b) s ys in
      let (states, zs) = all_filtered hold bs states zs in (s ∷ states, zs)

  -- The next values of a generator.
  abbrev pub signals : ℕ → SignalGenerator sources → SignalGenerator sources × List ℕ
  signals zero g = (g, [])
  signals (suc n) g =
      let (g, signal) = next_value sources g in let (g, rest) = signals n g in (g, signal ∷ rest)

  -- The code of the saturated sum of an output and a signal, in pairs.
  abbrev pub summed : List Float → List ℕ → List ℕ
  summed [] signals = []
  summed (y ∷ ys) [] = []
  summed (y ∷ ys) (signal ∷ signals) =
      (dac_code (saturating_add (filters.to_int_unchecked y) signal)).dac_word ∷ summed ys signals

  abbrev pub reference : Bool → List Biquad → List ℕ → Channel → Channel × List ℕ
  reference hold bs samples (states, g) =
      let (states, ys) = all_filtered hold bs states (map signed.from_i16 samples) in
      let (g, noise) = signals (length samples) g in ((states, g), summed ys noise)

  all_filtered_nil :
      (hold : Bool) (bs : List Biquad) (states : List State)
      → all_filtered hold bs states [] ≡ (states, [])
  all_filtered_nil hold [] states = refl
  all_filtered_nil hold (b ∷ bs) [] = refl
  all_filtered_nil hold (b ∷ bs) (s ∷ states) =
      ap (λ (r : List State × List Float). (s ∷ r.0, r.1)) (all_filtered_nil hold bs states)

  -- The first sample goes through all filters, and then the others do.
  abbrev one_then : Bool → List Biquad → List State → Float → List Float → List State × List Float
  one_then hold bs states y ys =
      let (states, z) = cascade floats signed filters hold bs states y in
      let (states, zs) = all_filtered hold bs states ys in (states, z ∷ zs)

  all_filtered_cons :
      (hold : Bool) (bs : List Biquad) (states : List State) (y : Float) (ys : List Float)
      → all_filtered hold bs states (y ∷ ys) ≡ one_then hold bs states y ys
  unfolding cascade
  all_filtered_cons hold [] states y ys = refl
  all_filtered_cons hold (b ∷ bs) [] y ys = refl
  all_filtered_cons hold (b ∷ bs) (s ∷ states) y ys =
      let c = if hold then filters.hold else b in
      let (s1, z) = filters.update c s y in
      let (s2, zs) = filtered c s1 ys in
      ap (λ (r : List State × List Float). (s2 ∷ r.0, r.1)) (all_filtered_cons hold bs states z zs)

  pub convert_channel-reference :
      (hold : Bool) (bs : List Biquad) (samples outputs : List ℕ) (c : Channel)
      → length samples ≡ length outputs
      → convert_channel floats signed filters sources hold bs samples outputs c
        ≡ reference hold bs samples c
  unfolding convert_channel convert
  convert_channel-reference hold bs [] [] (states, g) e =
      let same = all_filtered_nil hold bs states in rw same refl
  convert_channel-reference hold bs [] (d ∷ outputs) c e = absurd (omega arith)
  convert_channel-reference hold bs (x ∷ samples) [] c e = absurd (omega arith)
  convert_channel-reference hold bs (x ∷ samples) (d ∷ outputs) (states, g) e =
      let first =
        all_filtered_cons hold bs states (signed.from_i16 x) (map signed.from_i16 samples) in
      let made = convert floats signed filters sources hold bs x (states, g) in
      rw first (
        ap (λ (r : Channel × List ℕ). (r.0, made.1 ∷ r.1))
          (convert_channel-reference hold bs samples outputs made.0 (omega arith)))
