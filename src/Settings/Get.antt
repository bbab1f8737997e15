-- ===== src/Settings/Get.antt =====
-- serial-settings/src/lib.rs, `handle_get`.
pub mod Reads
use stabilizer.Prelude.{ℕ, ◌==◌, Option, none, some, if◌then◌else◌}
use stabilizer.Prelude.Results.{Result, ok, err, ◌>>=◌}
use stabilizer.Settings.{
  Bytes, Got, absent, get_failed, got, Set, set_done, Message, get_error, current, default_absent,
  default_serialize_error, default_value, same_default, not_stored, stored_fetch_error,
  stored_deserialize_error, stored_serialize_error, stored_value, same_stored, end_of_line, Tree,
  Platform, Session, Visit, say, tell, iter_root,
}

module _ (tree : Tree) (platform : Platform) where
  open platform use {State, Fault}

  abbrev Done : Type 0
  Done = Option (Session tree platform × tree.Settings)

  -- What is said of the default, by the checksum of the current value.
  default_message : Bytes → ℕ → Got → Message
  default_message key check absent = default_absent
  default_message key check get_failed = default_serialize_error
  default_message key check (got bytes) =
      if tree.checksum bytes == check then same_default else default_value key bytes

  stored_message : Bytes → ℕ → Got → Message
  stored_message key check (got bytes) =
      if tree.checksum bytes == check then same_stored else stored_value key bytes
  stored_message key check _ = stored_serialize_error

  show_decoded : Bytes → ℕ → tree.Settings × Set → Session tree platform → Done
  unfolding stored_message
  show_decoded key check (t, set_done) s =
      tell tree platform (stored_message key check (tree.get_json s.buffer_len key t)) t s
  show_decoded key check (t, _) s = tell tree platform stored_deserialize_error t s

  -- The stored value is decoded over the defaults.
  show_stored :
      Bytes → ℕ → State × Result Fault (Option Bytes) → tree.Settings → Session tree platform → Done
  unfolding show_decoded
  show_stored key check (p, err e) defaults s =
      tell tree platform stored_fetch_error defaults (record s { platform_state = p })
  show_stored key check (p, ok none) defaults s =
      tell tree platform not_stored defaults (record s { platform_state = p })
  show_stored key check (p, ok (some bytes)) defaults s =
      show_decoded key check (tree.set_postcard key bytes defaults)
        (record s { platform_state = p })

  show_current : Bytes → Got → tree.Settings → Session tree platform → Done
  unfolding default_message show_stored
  show_current key absent defaults s = some (s, defaults)
  show_current key get_failed defaults s = tell tree platform (get_error key) defaults s
  show_current key (got bytes) defaults s = do
    s ← say tree platform (current key bytes) s
    let check = tree.checksum bytes
    s ← say tree platform (default_message key check (tree.get_json s.buffer_len key defaults)) s
    (s, defaults) ←
        show_stored key check (platform.fetch s.buffer_len key s.platform_state) defaults s
    tell tree platform end_of_line defaults s

  unfoldable pub get_key : Visit tree platform
  unfolding show_current
  get_key key defaults s = show_current key (tree.get_json s.buffer_len key s.settings) defaults s

  unfoldable pub handle_get : Option Bytes → Session tree platform → Option (Session tree platform)
  handle_get key s = iter_root tree platform key get_key s
