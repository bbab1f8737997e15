-- ===== src/Settings/Runner.antt =====
-- serial-settings/src/lib.rs, `Runner::poll`. The menu's handling of one byte is a parameter.
pub mod Draining
pub mod Flags
pub mod Notices
use stabilizer.Prelude.{ℕ, suc, Bool, true, false, [], ◌∷◌, Option, none, some}
use mathlib.Core.Option
use stabilizer.Prelude.Results.{Result, ok, err, ◌>>=◌}
use stabilizer.Settings.{Bytes, Tree, Platform, Session}

module _ (tree : Tree) (platform : Platform) where
  open platform use {State, Fault}

  -- `menu::Runner::input_byte`, which calls the handlers.
  abbrev pub Input : Type 0
  Input = ℕ → Session tree platform → Option (Session tree platform)

  unfoldable pub input_bytes :
      Input → Bytes → Session tree platform → Option (Session tree platform)
  input_bytes input [] s = some s
  input_bytes input (b ∷ bytes) s = do s ← input b s; input_bytes input bytes s

  -- One round of the loop of `poll`: it is done with a result, or goes on.
  pub data Round : Type 0 where
    finished : Result Fault Bool → Round
    again : Round

  unfoldable pub took :
      Input
      → State × Result Fault Bytes
      → Session tree platform
      → Option (Session tree platform × Round)
  took input (p, err e) s = some (record s { platform_state = p }, finished (err e))
  took input (p, ok bytes) s =
      Option.map (λ t. (t, again)) (input_bytes input bytes (record s { platform_state = p }))

  unfoldable pub poll_ready :
      Input
      → State × Result Fault Bool
      → Session tree platform
      → Option (Session tree platform × Round)
  unfolding took
  poll_ready input (p, err e) s = some (record s { platform_state = p }, finished (err e))
  poll_ready input (p, ok false) s = some (record s { platform_state = p }, finished (ok s.updated))
  poll_ready input (p, ok true) s =
      took input (platform.read 64 p) (record s { platform_state = p })

  -- `none` is a panic, or a loop that is not done when the fuel is.
  unfoldable pub poll_loop :
      ℕ → Input → Session tree platform → Option (Session tree platform × Result Fault Bool)
  unfolding poll_ready
  poll_loop ℕ.zero input s = none
  poll_loop (suc fuel) input s = do
    (s, round) ← poll_ready input (platform.read_ready s.platform_state) s
    elim round [ finished r ↦ some (s, r) | again ↦ poll_loop fuel input s ]

  unfoldable pub poll :
      ℕ → Input → Session tree platform → Option (Session tree platform × Result Fault Bool)
  poll fuel input s = poll_loop fuel input (record s { updated = false })
