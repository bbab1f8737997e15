-- ===== src/Settings/Runner/Notices.antt =====
-- What a poll reports of the settings.
use stabilizer.Prelude.{
  ℕ, zero, suc, ◌≡◌, ◌<◌, ◌⊎◌, inl, inr, refl, ap, subst, ◌∙◌, Bool, true, false, List, [], ◌∷◌,
  Option, some, length,
}
use mathlib.Core.Option.{some-injective, none-ne-some, map-eq-some_iff}
use stabilizer.Prelude.Results.{Result, ok, err, some_steps}
use stabilizer.Settings.{Bytes, Tree, Platform, Session}
use stabilizer.Settings.Keeps.{some-Same, some_pair-Same}
use stabilizer.Settings.Menu.{Action, act_all}
use stabilizer.Settings.Menu.Notices.{
  FailedSets, Noticed, Same-Noticed, Noticed-trans, act_all-Noticed,
}
use stabilizer.Settings.Runner.{
  Input, input_bytes, Round, finished, again, took, poll_ready, poll_loop, poll,
}
use stabilizer.Settings.Runner.Flags.{Flag, poll-Flag}
use stabilizer.Settings.Runner.Draining.{Script, IsHandler, poll-Drains}

module _ (tree : Tree) (platform : Platform) where
  open platform use {State, Fault}

  abbrev Sess : Type 0
  Sess = Session tree platform

  -- The handling of a byte calls handlers and writes to the interface, and nothing else.
  abbrev pub IsMenu : Input tree platform → Type 0
  IsMenu input =
      (b : ℕ) (s t : Sess)
      → input b s ≡ some t
      → (actions : List (Action tree platform)) × (act_all tree platform actions s ≡ some t)

  input_bytes-Noticed :
      (input : Input tree platform) (bytes : Bytes) (s t : Sess)
      → IsMenu input
      → input_bytes tree platform input bytes s ≡ some t
      → Noticed tree platform s t
  unfolding input_bytes
  input_bytes-Noticed input [] s t menu h =
      Same-Noticed tree platform s t (some-Same tree platform s s t (refl, refl) h)
  input_bytes-Noticed input (b ∷ bytes) s u menu h =
      let (t, e, k) = some_steps (input b s) _ u h in
      let (actions, acted) = menu b s t e in
      Noticed-trans tree platform s t u (act_all-Noticed tree platform actions s t acted)
        (input_bytes-Noticed input bytes t u menu k)

  -- A round that stops leaves the settings.
  took-Noticed :
      (input : Input tree platform) (r : State × Result Fault Bytes) (s t : Sess)
      (round : Round tree platform)
      → IsMenu input
      → took tree platform input r s ≡ some (t, round)
      → Noticed tree platform s t
  unfolding took
  took-Noticed input (p, err e) s t round menu h = Same-Noticed tree platform s t (
      some_pair-Same tree platform s (record s { platform_state = p }) t (finished (err e)) round
        (refl, refl) h)
  took-Noticed input (p, ok bytes) s t round menu h =
      let (u, e, k) =
        (map-eq-some_iff _
            (input_bytes tree platform input bytes (record s { platform_state = p }))).0
          h in
      let noticed = input_bytes-Noticed input bytes (record s { platform_state = p }) u menu e in
      subst (λ x. Noticed tree platform s x) (ap (λ x. x.0) k) noticed

  poll_ready-Noticed :
      (input : Input tree platform) (r : State × Result Fault Bool) (s t : Sess)
      (round : Round tree platform)
      → IsMenu input
      → poll_ready tree platform input r s ≡ some (t, round)
      → Noticed tree platform s t
  unfolding poll_ready
  poll_ready-Noticed input (p, err e) s t round menu h = Same-Noticed tree platform s t (
      some_pair-Same tree platform s (record s { platform_state = p }) t (finished (err e)) round
        (refl, refl) h)
  poll_ready-Noticed input (p, ok false) s t round menu h = Same-Noticed tree platform s t (
      some_pair-Same tree platform s (record s { platform_state = p }) t (finished (ok s.updated))
        round (refl, refl) h)
  poll_ready-Noticed input (p, ok true) s t round menu h =
      took-Noticed input (platform.read 64 p) (record s { platform_state = p }) t round menu h

  -- After a round: it was the last, or the rest of the loop is known.
  rounds-Noticed :
      (fuel : ℕ) (input : Input tree platform) (s t u : Sess) (round : Round tree platform)
      (r : Result Fault Bool)
      → Noticed tree platform s t
      → (poll_loop tree platform fuel input t ≡ some (u, r) → Noticed tree platform t u)
      → ◌≡◌ {A = Option (Sess × Result Fault Bool)}
          (elim round [ finished r ↦ some (t, r) | again ↦ poll_loop tree platform fuel input t ])
          (some (u, r))
      → Noticed tree platform s u
  rounds-Noticed fuel input s t u (finished r2) r first next h =
      subst (λ x. Noticed tree platform s x) (ap (λ x. x.0) (some-injective _ _ h)) first
  rounds-Noticed fuel input s t u again r first next h =
      Noticed-trans tree platform s t u first (next h)

  poll_loop-Noticed :
      (fuel : ℕ) (input : Input tree platform) (s t : Sess) (r : Result Fault Bool)
      → IsMenu input
      → poll_loop tree platform fuel input s ≡ some (t, r)
      → Noticed tree platform s t
  unfolding poll_loop
  poll_loop-Noticed zero input s t r menu h = absurd (none-ne-some _ h)
  poll_loop-Noticed (suc fuel) input s u r menu h =
      let ((t, round), e, k) =
        some_steps (poll_ready tree platform input (platform.read_ready s.platform_state) s) _
          (u, r) h in
      let first =
        poll_ready-Noticed input (platform.read_ready s.platform_state) s t round menu e in
      rounds-Noticed fuel input s t u round r first (poll_loop-Noticed fuel input t u r menu) k

  pub poll-Noticed :
      (fuel : ℕ) (input : Input tree platform) (s t : Sess) (flag : Bool)
      → IsMenu input
      → poll tree platform fuel input s ≡ some (t, ok flag)
      → (flag ≡ true) ⊎ FailedSets tree platform s.settings t.settings
  unfolding poll
  poll-Noticed fuel input s t flag menu h =
      let flagged : flag ≡ t.updated =
        subst (Flag tree platform) h (poll-Flag tree platform fuel input s) in
      let noticed =
        poll_loop-Noticed fuel input (record s { updated = false }) t (ok flag) menu h in
      elim noticed [ inl is_set ↦ inl (flagged ∙ is_set) | inr (_, sets) ↦ inr sets ]

  module _ (script : Script platform) where
    -- Over an interface that gives its input in chunks, and a handling of bytes that calls the
    -- menu's handlers and writes to the interface, does not panic and takes no input itself: with
    -- more fuel than chunks that wait, poll returns a flag of an update, and unless it is set only
    -- sets that failed have touched the settings.
    pub poll-Notices :
        (fuel : ℕ) (input : Input tree platform) (s : Sess)
        → IsHandler tree platform script input
        → IsMenu input
        → length (script.chunks s.platform_state) < fuel
        → (t : Sess) × (flag : Bool) × (poll tree platform fuel input s ≡ some (t, ok flag))
          × ((flag ≡ true) ⊎ FailedSets tree platform s.settings t.settings)
    unfolding poll
    poll-Notices fuel input s handles menu h =
        let (t, e, _) = poll-Drains tree platform script fuel input s handles h in
        (t, t.updated, e, poll-Noticed fuel input s t t.updated menu e)
