-- ===== src/Hardware/Afe.antt =====
-- src/hardware/afe.rs: the programmable gain amplifier. Its two pins are a parameter.
use stabilizer.Prelude.{ℕ, ◌≡◌, Bool, true, false, refl, Option, some, test_bit}
use stabilizer.Prelude.Results.{◌>>=◌}
use stabilizer.Prelude.Floats.{Floats}

pub data Gain : Type 0 where
  g1 g2 g5 g10 : Gain

-- `gain as u8`, and `Gain::try_from`.
abbrev pub gain_code : Gain → ℕ
gain_code g1 = 0
gain_code g2 = 1
gain_code g5 = 2
gain_code g10 = 3

abbrev pub gain_of : Bool → Bool → Gain
gain_of false false = g1
gain_of true false = g2
gain_of false true = g5
gain_of true true = g10

-- `as_multiplier`.
unfoldable pub as_multiplier : (floats : Floats) → Gain → floats.Float
as_multiplier floats g1 = floats.literal 1 1
as_multiplier floats g2 = floats.literal 2 1
as_multiplier floats g5 = floats.literal 5 1
as_multiplier floats g10 = floats.literal 10 1

-- A call whose result is unwrapped gives nothing where it fails; `true` is high.
pub record Pins : Type 1 where
  pub State : Type 0
  pub set_a0 : Bool → State → Option State
  pub set_a1 : Bool → State → Option State
  pub is_a0_high : State → Option Bool
  pub is_a1_high : State → Option Bool

-- Accesses succeed, and a pin is as it was set.
pub record PinsHold (pins : Pins) : Type 0 where
  pub a0 : pins.State → Bool
  pub a1 : pins.State → Bool
  pub set_a0_lem :
      (level : Bool) (s : pins.State)
      → (t : pins.State) × (pins.set_a0 level s ≡ some t) × (a0 t ≡ level) × (a1 t ≡ a1 s)
  pub set_a1_lem :
      (level : Bool) (s : pins.State)
      → (t : pins.State) × (pins.set_a1 level s ≡ some t) × (a0 t ≡ a0 s) × (a1 t ≡ level)
  pub is_a0_high_lem : (s : pins.State) → pins.is_a0_high s ≡ some (a0 s)
  pub is_a1_high_lem : (s : pins.State) → pins.is_a1_high s ≡ some (a1 s)

module _ (pins : Pins) where
  open pins use {State}

  unfoldable pub set_gain : Gain → State → Option State
  set_gain gain s = do
    s ← pins.set_a0 (test_bit (gain_code gain) 0) s
    pins.set_a1 (test_bit (gain_code gain) 1) s

  unfoldable pub get_gain : State → Option Gain
  get_gain s = do
    low_bit ← pins.is_a0_high s
    high_bit ← pins.is_a1_high s
    some (gain_of low_bit high_bit)

  unfoldable pub new : State → Option State
  new s = set_gain g1 s

  decoded :
      (gain : Gain) → gain_of (test_bit (gain_code gain) 0) (test_bit (gain_code gain) 1) ≡ gain
  decoded g1 = refl
  decoded g2 = refl
  decoded g5 = refl
  decoded g10 = refl

  -- Over pins that hold their level: set_gain succeeds for each gain, and get_gain then gives it.
  pub set-get_gain :
      (hold : PinsHold pins) (gain : Gain) (s : State)
      → (t : State) × (set_gain gain s ≡ some t) × (get_gain t ≡ some gain)
  unfolding set_gain get_gain
  set-get_gain hold gain s =
      let (t, e, a, _) = hold.set_a0_lem (test_bit (gain_code gain) 0) s in
      let (u, e2, a2, b2) = hold.set_a1_lem (test_bit (gain_code gain) 1) t in
      (
        u,
        rw (e, e2) refl,
        rw (hold.is_a0_high_lem u, hold.is_a1_high_lem u, a2, a, b2, decoded gain) refl,
      )
