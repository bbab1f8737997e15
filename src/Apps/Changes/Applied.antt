-- ===== src/Apps/Changes/Applied.antt =====
-- Which changes of the settings are applied.
use stabilizer.Prelude.{
  ℕ, ◌≡◌, ◌⊎◌, inl, inr, refl, sym, ap, subst, ◌∙◌, Bool, true, false, none, some, arith,
  Bool-cases, if◌then◌else◌,
}
use mathlib.Core.Option.{some-injective, none-ne-some}
use stabilizer.Prelude.Results.{Result, ok, err, some_steps}
use stabilizer.Settings.{Tree, Platform}
use stabilizer.Settings.Runner.{Input, poll}
use stabilizer.Settings.Menu.Notices.{FailedSets}
use stabilizer.Settings.Runner.Notices.{IsMenu, poll-Noticed}
use stabilizer.Net.Users.{Parts, NetworkUsers, NetworkState, update, combined, polled, is_streaming}
use stabilizer.Net.NetworkProcessor.{UpdateState, updated, no_change}
use stabilizer.Net.NetworkProcessor
use stabilizer.Net.DataStream.Transmit.{process}
use stabilizer.Net.Telemetry
use stabilizer.Apps.Changes.{
  Field, App, spawn_if, unwrapped_flag, usb_round, is_change, idle_round, Step, usb, idle,
  settings_update, Reach, here, next,
}

abbrev reports : {Fault : Type 0} → Result Fault Bool → Bool
reports (ok changed) = changed
reports (err e) = false

module _ (tree : Tree) (platform : Platform) {S T : Type 0} (parts : Parts S T)
    (field : Field tree.Settings S) (input : Input tree platform) where
  open parts use {miniconf}

  abbrev A : Type 0
  A = App tree platform parts field input

  -- Settings that only failed sets, and updates of the client that reported no change, lead to.
  pub data Unreported : tree.Settings → tree.Settings → Type 0 where
    nothing : {t : tree.Settings} → Unreported t t
    failed_sets :
        {t u v : tree.Settings} → FailedSets tree platform t u → Unreported u v → Unreported t v
    quiet_update :
        {t v : tree.Settings} (c : miniconf.State)
        → reports (miniconf.update c (field.get t)).2 ≡ false
        → Unreported (field.put (miniconf.update c (field.get t)).1 t) v
        → Unreported t v

  Unreported-append : {t u v : tree.Settings} → Unreported t u → Unreported u v → Unreported t v
  Unreported-append nothing rest = rest
  Unreported-append (failed_sets sets first) rest = failed_sets sets (Unreported-append first rest)
  Unreported-append (quiet_update c quiet first) rest =
      quiet_update c quiet (Unreported-append first rest)

  -- settings_update is spawned, or the settings are those that were applied but for such changes.
  abbrev pub IsCurrent : A → Type 0
  IsCurrent a = (a.pending ≡ true) ⊎ Unreported a.applied a.session.settings

  if_free : (taken : Bool) (a b : A) → (if taken then none else some a) ≡ some b → a ≡ b
  if_free true a b h = absurd (none-ne-some b h)
  if_free false a b h = some-injective a b h

  -- What is spawned is pending, and else nothing changes.
  spawn_if-IsCurrent :
      (changed : Bool) (a b : A)
      → spawn_if tree platform parts field input changed a ≡ some b
      → (changed ≡ true) ⊎ IsCurrent a
      → IsCurrent b
  spawn_if-IsCurrent true a b h known =
      inl (ap (λ x. x.pending) (sym (if_free a.pending (record a { pending = true }) b h)))
  spawn_if-IsCurrent false a b h (inl e) = absurd (ground arith)
  spawn_if-IsCurrent false a b h (inr current) = subst IsCurrent (some-injective a b h) current

  -- Settings that change by what is not reported stay current, or something is pending.
  moved-IsCurrent :
      (a b : A)
      → b.pending ≡ a.pending
      → b.applied ≡ a.applied
      → Unreported a.session.settings b.session.settings
      → IsCurrent a
      → IsCurrent b
  moved-IsCurrent a b pending applied change (inl waits) = inl (pending ∙ waits)
  moved-IsCurrent a b pending applied change (inr current) = inr (
      subst (λ x. Unreported x b.session.settings) (sym applied) (Unreported-append current change))

  unwrapped-ok :
      (r : Result platform.Fault Bool) (flag : Bool)
      → unwrapped_flag tree platform parts field input r ≡ some flag
      → r ≡ ok flag
  unwrapped-ok (ok f) flag h = ap ok (some-injective f flag h)
  unwrapped-ok (err e) flag h = absurd (none-ne-some flag h)

  usb_round-IsCurrent :
      (fuel : ℕ) (poll_usb : platform.State → platform.State) (a b : A)
      → IsMenu tree platform input
      → usb_round tree platform parts field input fuel poll_usb a ≡ some b
      → IsCurrent a
      → IsCurrent b
  unfolding usb_round
  usb_round-IsCurrent fuel poll_usb a b menu h current =
      let start = record a.session { platform_state = poll_usb a.session.platform_state } in
      let ((s, result), polls, k) = some_steps (poll tree platform fuel input start) _ b h in
      let (flag, unwraps, k) =
        some_steps (unwrapped_flag tree platform parts field input result) _ b k in
      let returns : poll tree platform fuel input start ≡ some (s, ok flag) =
        polls ∙ ap (λ r. some (s, r)) (unwrapped-ok result flag unwraps) in
      spawn_if-IsCurrent flag (record a { session = s }) b k
        (elim (poll-Noticed tree platform fuel input start s flag menu returns) [
          | inl flagged ↦ inl flagged
          | inr sets ↦ inr (
              moved-IsCurrent a (record a { session = s }) refl refl (failed_sets sets nothing)
                current)
        ])

  changed_lem :
      (r : Result miniconf.Fault Bool) (u : UpdateState)
      → is_change tree platform parts field input (combined parts r (polled parts u)) ≡ reports r
  changed_lem (ok true) u = refl
  changed_lem (ok false) updated = refl
  changed_lem (ok false) no_change = refl
  changed_lem (err e) updated = refl
  changed_lem (err e) no_change = refl

  -- A round of the network ends with the settings and the report of the client.
  update_lem :
      (fuel : ℕ) (s0 s : S) (u v : NetworkUsers parts) (state : NetworkState)
      → update parts fuel s0 u ≡ some (v, s, state)
      → ((miniconf.update u.config s0).1 ≡ s)
        × (reports (miniconf.update u.config s0).2
            ≡ is_change tree platform parts field input state)
  unfolding update
  update_lem fuel s0 s u v state h =
      let (telemetry, _, k) =
        some_steps (stabilizer.Net.Telemetry.update parts.mqtt u.telemetry) _ (v, s, state) h in
      let flushed =
        if is_streaming parts u.generator
        then process parts.pool parts.queue parts.udp fuel u.stream
        else some u.stream in
      let (stream, _, k) = some_steps flushed _ (v, s, state) k in
      let changes = miniconf.update u.config s0 in
      let polling = stabilizer.Net.NetworkProcessor.update parts.network u.processor in
      let next_users : NetworkUsers parts = record u {
        config = changes.0;
        processor = polling.0;
        stream = stream;
        telemetry = telemetry;
      } in
      let e =
        some-injective (next_users, changes.1, combined parts changes.2 (polled parts polling.1))
          (v, s, state) k in
      (
        ap (λ x. x.1) e,
        sym (changed_lem changes.2 polling.1)
            ∙ ap (λ x. is_change tree platform parts field input x.2) e,
      )

  idle_round-IsCurrent :
      (fuel : ℕ) (a b : A)
      → idle_round tree platform parts field input fuel a ≡ some b
      → IsCurrent a
      → IsCurrent b
  unfolding idle_round
  idle_round-IsCurrent fuel a b h current =
      let s0 = field.get a.session.settings in
      let ((v, s, state), updates, k) = some_steps (update parts fuel s0 a.users) _ b h in
      let (moved, reported) = update_lem fuel s0 s a.users v state updates in
      let c = record a {
        users = v;
        session = record a.session { settings = field.put s a.session.settings };
      } in
      let known : (is_change tree platform parts field input state ≡ true) ⊎ IsCurrent c =
        elim (Bool-cases (is_change tree platform parts field input state)) [
          | inl changed ↦ inl changed
          | inr quiet ↦ inr (
              moved-IsCurrent a c refl refl
                (quiet_update a.users.config (reported ∙ quiet) (
                  subst (λ x. Unreported (field.put x a.session.settings) c.session.settings)
                    (sym moved) nothing))
                current)
        ] in
      spawn_if-IsCurrent (is_change tree platform parts field input state) c b k known

  step-IsCurrent :
      (a b : A)
      → IsMenu tree platform input
      → Step tree platform parts field input a b
      → IsCurrent a
      → IsCurrent b
  step-IsCurrent a b menu (usb fuel poll_usb h) current =
      usb_round-IsCurrent fuel poll_usb a b menu h current
  step-IsCurrent a b menu (idle fuel h) current = idle_round-IsCurrent fuel a b h current
  step-IsCurrent a b menu (settings_update waits) current = inr nothing

  -- For every order of rounds of the usb task and of idle and of runs of settings_update, with a
  -- terminal that calls the menu's handlers and writes to its interface, from a state where the
  -- settings are applied or settings_update is spawned: settings_update is spawned, or the
  -- settings are those that it last applied, but for sets that failed and for updates of the
  -- network's client that reported no change.
  pub Reach-IsCurrent :
      (a b : A)
      → IsMenu tree platform input
      → IsCurrent a
      → Reach tree platform parts field input a b
      → IsCurrent b
  Reach-IsCurrent a b menu current here = current
  Reach-IsCurrent a c menu current (next {b = b} step rest) =
      Reach-IsCurrent b c menu (step-IsCurrent a b menu step current) rest
