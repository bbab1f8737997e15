-- ===== src/Settings/Get/Reads.antt =====
-- A get only reads the settings.
use stabilizer.Prelude.{ℕ, refl, Option, none, some}
use stabilizer.Prelude.Results.{Result, ok, err, some_steps}
use stabilizer.Settings.{
  Bytes, Got, absent, get_failed, got, Set, set_absent, set_failed, set_done, get_error, current,
  not_stored, stored_fetch_error, stored_deserialize_error, end_of_line, Tree, Platform, Session,
  say,
}
use stabilizer.Settings.Keeps.{
  Same, Leaves, LeavesIn, Same-trans, some-LeavesIn, say-Leaves, tell-LeavesIn, iter_root-Leaves,
}
use stabilizer.Settings.Get.{
  default_message, stored_message, show_decoded, show_stored, show_current, get_key, handle_get,
}

module _ (tree : Tree) (platform : Platform) where
  open platform use {State, Fault}

  show_decoded-LeavesIn :
      (key : Bytes) (check : ℕ) (r : tree.Settings × Set) (s t : Session tree platform)
      → Same tree platform s t
      → LeavesIn tree platform s (show_decoded tree platform key check r t)
  unfolding show_decoded
  show_decoded-LeavesIn key check (d, set_done) s t same =
      tell-LeavesIn tree platform
        (stored_message tree platform key check (tree.get_json t.buffer_len key d)) d s t same
  show_decoded-LeavesIn key check (d, set_absent) s t same =
      tell-LeavesIn tree platform stored_deserialize_error d s t same
  show_decoded-LeavesIn key check (d, set_failed) s t same =
      tell-LeavesIn tree platform stored_deserialize_error d s t same

  show_stored-LeavesIn :
      (key : Bytes) (check : ℕ) (r : State × Result Fault (Option Bytes)) (d : tree.Settings)
      (s : Session tree platform)
      → LeavesIn tree platform s (show_stored tree platform key check r d s)
  unfolding show_stored
  show_stored-LeavesIn key check (p, err e) d s =
      tell-LeavesIn tree platform stored_fetch_error d s (record s { platform_state = p })
        (refl, refl)
  show_stored-LeavesIn key check (p, ok none) d s =
      tell-LeavesIn tree platform not_stored d s (record s { platform_state = p }) (refl, refl)
  show_stored-LeavesIn key check (p, ok (some bytes)) d s =
      show_decoded-LeavesIn key check (tree.set_postcard key bytes d) s
        (record s { platform_state = p }) (refl, refl)

  show_current-LeavesIn :
      (key : Bytes) (g : Got) (d : tree.Settings) (s : Session tree platform)
      → LeavesIn tree platform s (show_current tree platform key g d s)
  unfolding show_current
  show_current-LeavesIn key absent d s u d2 h =
      some-LeavesIn tree platform s s d (refl, refl) u d2 h
  show_current-LeavesIn key get_failed d s u d2 h =
      tell-LeavesIn tree platform (get_error key) d s s (refl, refl) u d2 h
  show_current-LeavesIn key (got bytes) d s u d2 h =
      let check = tree.checksum bytes in
      let shown = current key bytes in
      let (t, e, k) = some_steps (say tree platform shown s) _ (u, d2) h in
      let message = default_message tree platform key check (tree.get_json t.buffer_len key d) in
      let (v, e2, k2) = some_steps (say tree platform message t) _ (u, d2) k in
      let fetched = platform.fetch v.buffer_len key v.platform_state in
      let ((w, d3), e3, k3) =
        some_steps (show_stored tree platform key check fetched d v) _ (u, d2) k2 in
      let first =
        Same-trans tree platform s t v (say-Leaves tree platform shown s t e)
          (say-Leaves tree platform message t v e2) in
      let third =
        Same-trans tree platform s v w first (show_stored-LeavesIn key check fetched d v w d3 e3) in
      tell-LeavesIn tree platform end_of_line d3 s w third u d2 k3

  get_key-LeavesIn :
      (key : Bytes) (d : tree.Settings) (s : Session tree platform)
      → LeavesIn tree platform s (get_key tree platform key d s)
  unfolding get_key
  get_key-LeavesIn key d s =
      show_current-LeavesIn key (tree.get_json s.buffer_len key s.settings) d s

  -- For every tree, platform and session, and a key or none: unless it panics, handle_get leaves
  -- the settings and the flag of an update as they were.
  pub handle_get-Leaves :
      (key : Option Bytes) (s : Session tree platform)
      → Leaves tree platform s (handle_get tree platform key s)
  unfolding handle_get
  handle_get-Leaves key s =
      iter_root-Leaves tree platform (get_key tree platform) get_key-LeavesIn key s
