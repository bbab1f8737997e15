-- ===== src/Settings/Store.antt =====
-- serial-settings/src/lib.rs, `handle_store`.
pub mod Reads
pub mod Persists
use stabilizer.Prelude.{ℕ, ◌-◌, ◌==◌, ◌&&◌, not, Bool, Option, none, some, if◌then◌else◌, length}
use stabilizer.Prelude.Results.{Result, ok, err, ◌>>=◌}
use stabilizer.Settings.{
  Bytes, Got, absent, get_failed, got, fetch_error, stored, store_error, get_error, default_error,
  may_need_reboot, Tree, Platform, Session, Visit, say, tell, iter_root,
}

module _ (tree : Tree) (platform : Platform) where
  open platform use {State, Fault}

  abbrev Done : Type 0
  Done = Option (Session tree platform × tree.Settings)

  store_result :
      Bytes → tree.Settings → State × Result Fault (Unit {0}) → Session tree platform → Done
  store_result key defaults (p, ok _) s =
      tell tree platform (stored key) defaults (record s { platform_state = p })
  store_result key defaults (p, err e) s =
      tell tree platform (store_error key) defaults (record s { platform_state = p })

  -- The current value is stored if its checksum is not `check`.
  store_value : Bool → Bytes → ℕ → Got → tree.Settings → Session tree platform → Done
  unfolding store_result
  store_value force key check absent defaults s = some (s, defaults)
  store_value force key check get_failed defaults s = tell tree platform (get_error key) defaults s
  store_value force key check (got bytes) defaults s =
      if (tree.checksum bytes == check) && not force
      then some (s, defaults)
      else store_result key defaults
          (platform.store (s.buffer_len - length bytes) key bytes s.platform_state) s

  -- What is stored replaces the default in the check.
  check_stored :
      Bytes
      → ℕ
      → State × Result Fault (Option Bytes)
      → Session tree platform
      → Option (Session tree platform × ℕ)
  check_stored key check (p, ok none) s = some (record s { platform_state = p }, check)
  check_stored key check (p, ok (some bytes)) s =
      some (record s { platform_state = p }, tree.checksum bytes)
  check_stored key check (p, err e) s = do
    s ← say tree platform (fetch_error key) (record s { platform_state = p })
    some (s, check)

  store_default : Bool → Bytes → Got → tree.Settings → Session tree platform → Done
  unfolding store_value check_stored
  store_default force key absent defaults s = some (s, defaults)
  store_default force key get_failed defaults s = tell tree platform (default_error key) defaults s
  store_default force key (got bytes) defaults s = do
    (s, check) ←
        check_stored key (tree.checksum bytes) (platform.fetch s.buffer_len key s.platform_state) s
    store_value force key check (tree.get_postcard s.buffer_len key s.settings) defaults s

  unfoldable pub store_key : Bool → Visit tree platform
  unfolding store_default
  store_key force key defaults s =
      store_default force key (tree.get_postcard s.buffer_len key defaults) defaults s

  unfoldable pub handle_store :
      Option Bytes → Bool → Session tree platform → Option (Session tree platform)
  handle_store key force s = do
    s ← iter_root tree platform key (store_key force) s
    say tree platform may_need_reboot s
