-- ===== src/Apps/Changes.antt =====
-- src/bin/dual-iir.rs and src/bin/lockin.rs: the tasks `usb` and `settings_update` and the loop
-- `idle` by what they do to the settings. The USB driver and the field of the settings that the
-- network changes are parameters.
pub mod Applied
mod Tests
use stabilizer.Prelude.{ℕ, Bool, true, false, Option, none, some, if◌then◌else◌, ◌≡◌}
use stabilizer.Prelude.Results.{Result, ok, err, ◌>>=◌}
use stabilizer.Settings.{Tree, Platform, Session}
use stabilizer.Settings.Runner.{Input, poll}
use stabilizer.Net.Users.{
  Parts, NetworkUsers, NetworkState, settings_changed, net_updated, net_unchanged, update,
}

-- A field of the settings, as `settings.dual_iir`.
pub record Field (Whole S : Type 0) : Type 0 where
  pub get : Whole → S
  pub put : S → Whole → Whole

module _ (tree : Tree) (platform : Platform) {S T : Type 0} (parts : Parts S T)
    (field : Field tree.Settings S) (input : Input tree platform) where
  -- The shared settings with the terminal, and the settings that were last applied; `pending` is
  -- whether settings_update is spawned and did not run yet.
  pub record App : Type 0 where
    pub session : Session tree platform
    pub users : NetworkUsers parts
    pub pending : Bool
    pub applied : tree.Settings

  -- `settings_update::spawn().unwrap()`.
  abbrev pub spawn : App → Option App
  spawn a = if a.pending then none else some (record a { pending = true })

  abbrev pub spawn_if : Bool → App → Option App
  spawn_if changed a = if changed then spawn a else some a

  -- `.unwrap()` of the result of `poll`.
  abbrev pub unwrapped_flag : Result platform.Fault Bool → Option Bool
  unwrapped_flag (ok flag) = some flag
  unwrapped_flag (err e) = none

  -- A round of `usb`: the driver's poll, then the terminal's.
  unfoldable pub usb_round : ℕ → (platform.State → platform.State) → App → Option App
  usb_round fuel poll_usb a = do
    (s, result) ←
        poll tree platform fuel input
          (record a.session { platform_state = poll_usb a.session.platform_state })
    flag ← unwrapped_flag result
    spawn_if flag (record a { session = s })

  abbrev pub is_change : NetworkState → Bool
  is_change settings_changed = true
  is_change _ = false

  -- A round of `idle`, but for its sleep.
  unfoldable pub idle_round : ℕ → App → Option App
  idle_round fuel a = do
    (users, s, state) ← update parts fuel (field.get a.session.settings) a.users
    spawn_if (is_change state) (record a {
      users = users;
      session = record a.session { settings = field.put s a.session.settings };
    })

  -- `settings_update` takes the settings as they are.
  abbrev pub apply : App → App
  apply a = record a { pending = false; applied = a.session.settings }

  pub data Step : App → App → Type 0 where
    usb :
        {a b : App} (fuel : ℕ) (poll_usb : platform.State → platform.State)
        → usb_round fuel poll_usb a ≡ some b
        → Step a b
    idle : {a b : App} (fuel : ℕ) → idle_round fuel a ≡ some b → Step a b
    settings_update : {a : App} → a.pending ≡ true → Step a (apply a)

  pub data Reach : App → App → Type 0 where
    here : {a : App} → Reach a a
    next : {a b c : App} → Step a b → Reach b c → Reach a c
