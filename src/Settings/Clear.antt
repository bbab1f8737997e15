-- ===== src/Settings/Clear.antt =====
-- serial-settings/src/lib.rs, `handle_clear`.
pub mod Clears
use stabilizer.Prelude.{ℕ, ◌==◌, true, Option, none, some, if◌then◌else◌}
use stabilizer.Prelude.Results.{Result, ok, err, ◌>>=◌}
use stabilizer.Settings.{
  Bytes, Got, absent, get_failed, got, Set, set_absent, set_failed, set_done, cannot_get,
  default_error, set_error, cleared_current, fetch_error, cleared_stored, clear_error,
  may_need_reboot, Tree, Platform, Session, Visit, say, tell, iter_root,
}

module _ (tree : Tree) (platform : Platform) where
  open platform use {State, Fault}

  abbrev Done : Type 0
  Done = Option (Session tree platform × tree.Settings)

  clear_result :
      Bytes → tree.Settings → State × Result Fault (Unit {0}) → Session tree platform → Done
  clear_result key defaults (p, ok _) s =
      tell tree platform (cleared_stored key) defaults (record s { platform_state = p })
  clear_result key defaults (p, err e) s =
      tell tree platform (clear_error key) defaults (record s { platform_state = p })

  clear_fetched :
      Bytes → State × Result Fault (Option Bytes) → tree.Settings → Session tree platform → Done
  unfolding clear_result
  clear_fetched key (p, err e) defaults s =
      tell tree platform (fetch_error key) defaults (record s { platform_state = p })
  clear_fetched key (p, ok none) defaults s = some (record s { platform_state = p }, defaults)
  clear_fetched key (p, ok (some bytes)) defaults s =
      clear_result key defaults (platform.clear s.buffer_len key p)
        (record s { platform_state = p })

  clear_stored : Bytes → tree.Settings → Session tree platform → Done
  unfolding clear_fetched
  clear_stored key defaults s =
      clear_fetched key (platform.fetch s.buffer_len key s.platform_state) defaults s

  -- The default is set as the current value.
  set_default : Bytes → tree.Settings × Set → tree.Settings → Session tree platform → Done
  unfolding clear_stored
  set_default key (t, set_absent) defaults s = some (record s { settings = t }, defaults)
  set_default key (t, set_failed) defaults s =
      tell tree platform (set_error key) defaults (record s { settings = t })
  set_default key (t, set_done) defaults s = do
    s ← say tree platform (cleared_current key) (record s { settings = t; updated = true })
    clear_stored key defaults s

  clear_default : Bytes → ℕ → Got → tree.Settings → Session tree platform → Done
  unfolding set_default clear_stored
  clear_default key check absent defaults s = clear_stored key defaults s
  clear_default key check get_failed defaults s = tell tree platform (default_error key) defaults s
  clear_default key check (got bytes) defaults s =
      if tree.checksum bytes == check
      then clear_stored key defaults s
      else set_default key (tree.set_postcard key bytes s.settings) defaults s

  clear_current : Bytes → Got → tree.Settings → Session tree platform → Done
  unfolding clear_default
  clear_current key absent defaults s = some (s, defaults)
  clear_current key get_failed defaults s = tell tree platform (cannot_get key) defaults s
  clear_current key (got bytes) defaults s =
      clear_default key (tree.checksum bytes) (tree.get_postcard s.buffer_len key defaults) defaults
        s

  unfoldable pub clear_key : Visit tree platform
  unfolding clear_current
  clear_key key defaults s =
      clear_current key (tree.get_postcard s.buffer_len key s.settings) defaults s

  unfoldable pub handle_clear :
      Option Bytes → Session tree platform → Option (Session tree platform)
  handle_clear key s = do
    s ← iter_root tree platform key clear_key s
    say tree platform may_need_reboot (record s { updated = true })
