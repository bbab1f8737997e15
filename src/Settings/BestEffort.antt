-- ===== src/Settings/BestEffort.antt =====
-- serial-settings/src/interface.rs, `BestEffortInterface`, over the wrapped interface.
use stabilizer.Prelude.{ℕ, Bool, true, false, List, length}
use stabilizer.Prelude.Results.{Result, ok, err}
use stabilizer.Prelude.Effects.{Action, pure}

pub record Serial : Type 1 where
  pub State : Type 0
  pub Fault : Type 0
  pub write_ready : Action State Fault Bool
  pub write : List ℕ → Action State Fault ℕ
  pub read : ℕ → Action State Fault (List ℕ)
  pub read_ready : Action State Fault Bool

module _ (serial : Serial) where
  open serial use {State, Fault}

  write_if_ready : List ℕ → State × Result Fault Bool → State × Result Fault ℕ
  write_if_ready buf (s, ok true) = serial.write buf s
  write_if_ready buf (s, ok false) = (s, ok (length buf))
  write_if_ready buf (s, err e) = (s, ok (length buf))

  unfoldable pub write : List ℕ → Action State Fault ℕ
  unfolding write_if_ready
  write buf s = write_if_ready buf (serial.write_ready s)

  abbrev pub flush : Action State Fault (Unit {0})
  flush = pure tt

  abbrev pub read : ℕ → Action State Fault (List ℕ)
  read len = serial.read len

  abbrev pub read_ready : Action State Fault Bool
  read_ready = serial.read_ready
