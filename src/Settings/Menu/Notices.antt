-- ===== src/Settings/Menu/Notices.antt =====
-- What a line of the menu does to the settings.
use stabilizer.Prelude.{
  ◌≡◌, ◌⊎◌, inl, inr, refl, sym, ap, subst, ◌∙◌, Bool, true, false, List, [], ◌∷◌, Option, some,
}
use stabilizer.Prelude.Results.{some_steps}
use stabilizer.Settings.{
  Bytes, Set, set_absent, set_failed, set_done, set_not_stored, set_error, may_need_reboot, Tree,
  Platform, Session, say, iter_root, set_result, handle_set, handle_platform,
}
use stabilizer.Settings.Keeps.{Same, some-Same, say-Leaves}
use stabilizer.Settings.Get.Reads.{handle_get-Leaves}
use stabilizer.Settings.Clear.{handle_clear, clear_key}
use stabilizer.Settings.Store.Reads.{handle_store-Leaves}
use stabilizer.Settings.Menu.{
  Command, get_command, set_command, store_command, clear_command, platform_command, command_of,
  run, call, Action, called, wrote, act, act_all,
}

abbrev pub is_done : Set → Bool
is_done set_done = true
is_done _ = false

module _ (tree : Tree) (platform : Platform) where
  abbrev Sess : Type 0
  Sess = Session tree platform

  -- Settings that only failed sets lead to.
  pub data FailedSets : tree.Settings → tree.Settings → Type 0 where
    no_sets : {t : tree.Settings} → FailedSets t t
    failed_set :
        {t v : tree.Settings} (key new : Bytes)
        → is_done (tree.set_json key new t).1 ≡ false
        → FailedSets (tree.set_json key new t).0 v
        → FailedSets t v

  -- An update is flagged, or there was none but for failed sets.
  abbrev pub Noticed : Sess → Sess → Type 0
  Noticed s t = (t.updated ≡ true) ⊎ ((t.updated ≡ s.updated) × FailedSets s.settings t.settings)

  FailedSets-append : {t u v : tree.Settings} → FailedSets t u → FailedSets u v → FailedSets t v
  FailedSets-append no_sets next = next
  FailedSets-append (failed_set key new fails rest) next =
      failed_set key new fails (FailedSets-append rest next)

  pub Same-Noticed : (s t : Sess) → Same tree platform s t → Noticed s t
  Same-Noticed s t (settings, updated) =
      inr (updated, subst (λ x. FailedSets s.settings x) (sym settings) no_sets)

  pub Noticed-trans : (s t u : Sess) → Noticed s t → Noticed t u → Noticed s u
  Noticed-trans s t u first (inl flagged) = inl flagged
  Noticed-trans s t u (inl flagged) (inr (same, sets)) = inl (same ∙ flagged)
  Noticed-trans s t u (inr (same, sets)) (inr (same2, sets2)) =
      inr (same2 ∙ same, FailedSets-append sets sets2)

  -- A set that failed, and then a message.
  failed-Noticed :
      (key new : Bytes) (s t : Sess) (r : tree.Settings × Set)
      → tree.set_json key new s.settings ≡ r
      → is_done r.1 ≡ false
      → say tree platform (set_error key) (record s { settings = r.0 }) ≡ some t
      → Noticed s t
  failed-Noticed key new s t r e fails h =
      let (settings, updated) =
        say-Leaves tree platform (set_error key) (record s { settings = r.0 }) t h in
      let rest : FailedSets (tree.set_json key new s.settings).0 t.settings =
        subst (λ x. FailedSets x t.settings) (settings ∙ ap (λ x. x.0) (sym e)) no_sets in
      inr (updated, failed_set key new (ap (λ x. is_done x.1) e ∙ fails) rest)

  set_result-Noticed :
      (key new : Bytes) (s t : Sess) (r : tree.Settings × Set)
      → tree.set_json key new s.settings ≡ r
      → set_result tree platform key r s ≡ some t
      → Noticed s t
  unfolding set_result
  set_result-Noticed key new s t (u, set_done) e h =
      inl (
        (say-Leaves tree platform set_not_stored (record s { settings = u; updated = true }) t h).1)
  set_result-Noticed key new s t (u, set_absent) e h =
      failed-Noticed key new s t (u, set_absent) e refl h
  set_result-Noticed key new s t (u, set_failed) e h =
      failed-Noticed key new s t (u, set_failed) e refl h

  handle_clear-Noticed :
      (key : Option Bytes) (s t : Sess) → handle_clear tree platform key s ≡ some t → Noticed s t
  unfolding handle_clear
  handle_clear-Noticed key s t h =
      let (u, e, k) = some_steps (iter_root tree platform key (clear_key tree platform) s) _ t h in
      inl ((say-Leaves tree platform may_need_reboot (record u { updated = true }) t k).1)

  run-Noticed :
      (command : Command) (s t : Sess) → run tree platform command s ≡ some t → Noticed s t
  unfolding run handle_set handle_platform
  run-Noticed (get_command key) s t h = Same-Noticed s t (handle_get-Leaves tree platform key s t h)
  run-Noticed (clear_command key) s t h = handle_clear-Noticed key s t h
  run-Noticed (set_command key new) s t h = set_result-Noticed key new s t _ refl h
  run-Noticed (store_command key force) s t h =
      Same-Noticed s t (handle_store-Leaves tree platform key force s t h)
  run-Noticed (platform_command key) s t h = Same-Noticed s t (
      some-Same tree platform s (record s { platform_state = platform.cmd key s.platform_state }) t
        (refl, refl) h)

  act-Noticed :
      (action : Action tree platform) (s t : Sess)
      → act tree platform action s ≡ some t
      → Noticed s t
  unfolding act call
  act-Noticed (called item arguments) s t h =
      let (command, _, k) =
        some_steps (command_of item arguments) (λ c. run tree platform c s) t h in
      run-Noticed command s t k
  act-Noticed (wrote p) s t h =
      Same-Noticed s t
        (some-Same tree platform s (record s { platform_state = p }) t (refl, refl) h)

  -- For every run of the menu's handlers and of writes to the interface, from any session: unless it
  -- panics, the flag of an update is set, or it is as before and only sets that failed have
  -- touched the settings.
  pub act_all-Noticed :
      (actions : List (Action tree platform)) (s t : Sess)
      → act_all tree platform actions s ≡ some t
      → Noticed s t
  unfolding act_all
  act_all-Noticed [] s t h = Same-Noticed s t (some-Same tree platform s s t (refl, refl) h)
  act_all-Noticed (action ∷ actions) s u h =
      let (t, e, k) = some_steps (act tree platform action s) _ u h in
      Noticed-trans s t u (act-Noticed action s t e) (act_all-Noticed actions t u k)
