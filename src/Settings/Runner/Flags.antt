-- ===== src/Settings/Runner/Flags.antt =====
-- The flag that a poll returns.
use stabilizer.Prelude.{ℕ, zero, suc, ◌≡◌, refl, Bool, true, false, Option, none, some}
use mathlib.Core.Option
use stabilizer.Prelude.Results.{Result, ok, err, ◌>>=◌}
use stabilizer.Settings.{Bytes, Tree, Platform, Session}
use stabilizer.Settings.Runner.{Input, Round, finished, again, took, poll_ready, poll_loop, poll}

module _ (tree : Tree) (platform : Platform) where
  open platform use {State, Fault}

  abbrev Sess : Type 0
  Sess = Session tree platform

  -- A flag is that of the session beside it.
  abbrev RoundFlag : Option (Sess × Round tree platform) → Type 0
  RoundFlag (some (t, finished (ok flag))) = flag ≡ t.updated
  RoundFlag _ = Unit {0}

  abbrev pub Flag : Option (Sess × Result Fault Bool) → Type 0
  Flag (some (t, ok flag)) = flag ≡ t.updated
  Flag _ = Unit {0}

  again-RoundFlag :
      (o : Option Sess)
      → RoundFlag
          (mathlib.Core.Option.map {A = Sess} {B = Sess × Round tree platform} (λ t. (t, again)) o)
  again-RoundFlag none = tt
  again-RoundFlag (some t) = tt

  took-RoundFlag :
      (input : Input tree platform) (r : State × Result Fault Bytes) (s : Sess)
      → RoundFlag (took tree platform input r s)
  unfolding took
  took-RoundFlag input (p, err e) s = tt
  took-RoundFlag input (p, ok bytes) s = again-RoundFlag _

  poll_ready-RoundFlag :
      (input : Input tree platform) (r : State × Result Fault Bool) (s : Sess)
      → RoundFlag (poll_ready tree platform input r s)
  unfolding poll_ready
  poll_ready-RoundFlag input (p, err e) s = tt
  poll_ready-RoundFlag input (p, ok false) s = refl
  poll_ready-RoundFlag input (p, ok true) s = took-RoundFlag input _ _

  rounds-Flag :
      (fuel : ℕ) (input : Input tree platform) (o : Option (Sess × Round tree platform))
      → RoundFlag o
      → ((t : Sess) → Flag (poll_loop tree platform fuel input t))
      → Flag (do
        (t, round) ← o
        elim round [ finished r ↦ some (t, r) | again ↦ poll_loop tree platform fuel input t ])
  rounds-Flag fuel input none here rest = tt
  rounds-Flag fuel input (some (t, finished (ok flag))) here rest = here
  rounds-Flag fuel input (some (t, finished (err e))) here rest = tt
  rounds-Flag fuel input (some (t, again)) here rest = rest t

  -- The flag that a poll returns is that of the session that it leaves.
  poll_loop-Flag :
      (fuel : ℕ) (input : Input tree platform) (s : Sess)
      → Flag (poll_loop tree platform fuel input s)
  unfolding poll_loop
  poll_loop-Flag zero input s = tt
  poll_loop-Flag (suc fuel) input s =
      rounds-Flag fuel input _ (poll_ready-RoundFlag input (platform.read_ready s.platform_state) s)
        (poll_loop-Flag fuel input)

  pub poll-Flag :
      (fuel : ℕ) (input : Input tree platform) (s : Sess) → Flag (poll tree platform fuel input s)
  unfolding poll
  poll-Flag fuel input s = poll_loop-Flag fuel input (record s { updated = false })
