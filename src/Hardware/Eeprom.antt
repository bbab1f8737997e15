-- ===== src/Hardware/Eeprom.antt =====
-- src/hardware/eeprom.rs: the MAC address is read until two reads in a row agree. The I2C bus is a
-- parameter.
pub mod Agreement
use stabilizer.Prelude.{
  ℕ, zero, suc, Bool, true, false, ◌==◌, ◌&&◌, List, [], ◌∷◌, Option, none, some, if◌then◌else◌,
}
use stabilizer.Prelude.Results.{Result, ok, err}
use stabilizer.Prelude.Effects.{Action}

-- `read` is the `write_read` of the six bytes at the pointer of the MAC address.
pub record Bus : Type 1 where
  pub State : Type 0
  pub Fault : Type 0
  pub read : Action State Fault (List ℕ)
  pub delay_ms : ℕ → State → State

same_bytes : List ℕ → List ℕ → Bool
same_bytes [] [] = true
same_bytes (x ∷ xs) (y ∷ ys) = (x == y) && same_bytes xs ys
same_bytes _ _ = false

module _ (bus : Bus) where
  open bus use {State, Fault}

  -- What a read decides: the address, or the read that the next one is compared with.
  pub data Attempt : Type 0 where
    agreed : List ℕ → Attempt
    keep : Option (List ℕ) → Attempt

  compared : List ℕ → Option (List ℕ) → Attempt
  unfolding same_bytes
  compared bytes none = keep (some bytes)
  compared bytes (some old) = if same_bytes old bytes then agreed bytes else keep (some bytes)

  attempt : Result Fault (List ℕ) → Option (List ℕ) → Attempt
  unfolding compared
  attempt (ok bytes) previous = compared bytes previous
  attempt (err e) previous = keep none

  -- The loop, with the rounds that are left; `none` is the panic.
  unfoldable pub read_loop : ℕ → Option (List ℕ) → State → Option (State × List ℕ)
  unfolding attempt
  read_loop zero previous s = none
  read_loop (suc left) previous s =
      let (t, result) = bus.read s in
      elim (attempt result previous) [
        | agreed bytes ↦ some (t, bytes)
        | keep next_previous ↦ read_loop left next_previous (bus.delay_ms 100 t)
      ]

  unfoldable pub read_eui48 : State → Option (State × List ℕ)
  read_eui48 s = read_loop 40 none s
