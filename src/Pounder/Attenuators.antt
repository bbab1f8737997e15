-- ===== src/Pounder/Attenuators.antt =====
-- src/hardware/pounder/attenuators.rs: `AttenuatorInterface`, with its required methods as the
-- record and its provided ones over it.
pub mod ShiftChain
use stabilizer.Prelude.{
  ℕ, ◌+◌, ◌*◌, ◌/◌, ◌-◌, ◌&&◌, not, if◌then◌else◌, List, [], ◌∷◌, get_or, set, u8, Bool,
}
use stabilizer.Prelude.Results.{Result, ok, err}
use stabilizer.Prelude.Effects.{Action, pure, fail, ◌>>=◌, ◌>>◌}
use stabilizer.Prelude.Floats.{Floats, as_u8}
use stabilizer.Pounder.{Channel, channel_index}
use stabilizer.Pounder.Qspi.{Error, bounds}

-- `transfer_attenuators` shifts four bytes in, and gives the bytes shifted out.
pub record AttenuatorInterface (Q : Type 0) : Type 1 where
  pub State : Type 0
  pub reset_attenuators : Action State (Error Q) (Unit {0})
  pub latch_attenuator : Channel → Action State (Error Q) (Unit {0})
  pub transfer_attenuators : List ℕ → Action State (Error Q) (List ℕ)

module _ {Q : Type 0} (floats : Floats) (device : AttenuatorInterface Q) where
  open floats use {Float, from_nat, literal, times, over, at_most}
  open device use {State}

  abbrev pub is_valid : Float → Bool
  is_valid attenuation = at_most (literal 0 1) attenuation && at_most attenuation (literal 315 10)

  unfoldable pub validate : Float → Action State (Error Q) Float
  validate attenuation = if not (is_valid attenuation) then fail bounds else pure attenuation

  -- `(attenuation * 2.0) as u8`, and `code as f32 / 2.0`.
  abbrev pub attenuation_code : Float → ℕ
  attenuation_code attenuation = as_u8 floats (times attenuation (literal 2 1))

  abbrev pub attenuation_of : ℕ → Float
  attenuation_of code = over (from_nat code) (literal 2 1)

  -- `!byte`.
  abbrev pub invert : ℕ → ℕ
  invert byte = 255 - byte

  abbrev pub zeros : List ℕ
  zeros = 0 ∷ 0 ∷ 0 ∷ 0 ∷ []

  unfoldable pub set_attenuation : Channel → Float → Action State (Error Q) Float
  unfolding validate
  set_attenuation channel attenuation = do
    attenuation ← validate attenuation
    channels ← device.transfer_attenuators zeros
    _ ←
        device.transfer_attenuators
          (set channels (channel_index channel) (invert (u8 (attenuation_code attenuation * 4))))
    device.latch_attenuator channel
    pure (attenuation_of (attenuation_code attenuation))

  unfoldable pub get_attenuation : Channel → Action State (Error Q) Float
  get_attenuation channel = do
    channels ← device.transfer_attenuators zeros
    channels ← device.transfer_attenuators channels
    pure (attenuation_of (invert (get_or channels (channel_index channel) 0) / 4))
