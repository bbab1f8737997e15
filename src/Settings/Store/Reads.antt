-- ===== src/Settings/Store/Reads.antt =====
-- A store only reads the settings.
use stabilizer.Prelude.{
  ℕ, ◌≡◌, refl, Bool, Bool-cases, inl, inr, ◌==◌, ◌&&◌, ◌-◌, not, Option, none, some, length,
}
use stabilizer.Prelude.Results.{Result, ok, err, some_steps}
use stabilizer.Settings.{
  Bytes, Got, absent, get_failed, got, stored, store_error, fetch_error, get_error, default_error,
  may_need_reboot, Tree, Platform, Session, say, iter_root,
}
use stabilizer.Settings.Keeps.{
  Same, Leaves, LeavesIn, Same-trans, some-LeavesIn, some_pair-Same, say-Leaves, tell-LeavesIn,
  iter_root-Leaves,
}
use stabilizer.Settings.Store.{
  store_result, store_value, check_stored, store_default, store_key, handle_store,
}

module _ (tree : Tree) (platform : Platform) where
  open platform use {State, Fault}

  store_result-LeavesIn :
      (key : Bytes) (d : tree.Settings) (r : State × Result Fault (Unit {0}))
      (s : Session tree platform)
      → LeavesIn tree platform s (store_result tree platform key d r s)
  unfolding store_result
  store_result-LeavesIn key d (p, ok _) s =
      tell-LeavesIn tree platform (stored key) d s (record s { platform_state = p }) (refl, refl)
  store_result-LeavesIn key d (p, err e) s =
      tell-LeavesIn tree platform (store_error key) d s (record s { platform_state = p })
        (refl, refl)

  store_value-LeavesIn :
      (force : Bool) (key : Bytes) (check : ℕ) (g : Got) (d : tree.Settings)
      (s : Session tree platform)
      → LeavesIn tree platform s (store_value tree platform force key check g d s)
  unfolding store_value
  store_value-LeavesIn force key check absent d s = some-LeavesIn tree platform s s d (refl, refl)
  store_value-LeavesIn force key check get_failed d s =
      tell-LeavesIn tree platform (get_error key) d s s (refl, refl)
  store_value-LeavesIn force key check (got bytes) d s =
      elim (Bool-cases ((tree.checksum bytes == check) && not force)) [
        | inl matches ↦ rw matches (some-LeavesIn tree platform s s d (refl, refl))
        | inr differs ↦
            let result = platform.store (s.buffer_len - length bytes) key bytes s.platform_state in
            rw differs (store_result-LeavesIn key d result s)
      ]

  check_stored-Same :
      (key : Bytes) (check : ℕ) (r : State × Result Fault (Option Bytes))
      (s t : Session tree platform) (c : ℕ)
      → check_stored tree platform key check r s ≡ some (t, c)
      → Same tree platform s t
  unfolding check_stored
  check_stored-Same key check (p, ok none) s t c h =
      some_pair-Same tree platform s (record s { platform_state = p }) t check c (refl, refl) h
  check_stored-Same key check (p, ok (some bytes)) s t c h =
      some_pair-Same tree platform s (record s { platform_state = p }) t (tree.checksum bytes) c
        (refl, refl) h
  check_stored-Same key check (p, err e) s t c h =
      let (u, said, k) =
        some_steps (say tree platform (fetch_error key) (record s { platform_state = p })) _ (t, c)
          h in
      some_pair-Same tree platform s u t check c
        (say-Leaves tree platform (fetch_error key) (record s { platform_state = p }) u said) k

  store_default-LeavesIn :
      (force : Bool) (key : Bytes) (g : Got) (d : tree.Settings) (s : Session tree platform)
      → LeavesIn tree platform s (store_default tree platform force key g d s)
  unfolding store_default
  store_default-LeavesIn force key absent d s u d2 h =
      some-LeavesIn tree platform s s d (refl, refl) u d2 h
  store_default-LeavesIn force key get_failed d s u d2 h =
      tell-LeavesIn tree platform (default_error key) d s s (refl, refl) u d2 h
  store_default-LeavesIn force key (got bytes) d s u d2 h =
      let fetched = platform.fetch s.buffer_len key s.platform_state in
      let ((t, check), e, k) =
        some_steps (check_stored tree platform key (tree.checksum bytes) fetched s) _ (u, d2) h in
      Same-trans tree platform s t u
        (check_stored-Same key (tree.checksum bytes) fetched s t check e)
        (store_value-LeavesIn force key check (tree.get_postcard t.buffer_len key t.settings) d t u
          d2 k)

  store_key-LeavesIn :
      (force : Bool) (key : Bytes) (d : tree.Settings) (s : Session tree platform)
      → LeavesIn tree platform s (store_key tree platform force key d s)
  unfolding store_key
  store_key-LeavesIn force key d s =
      store_default-LeavesIn force key (tree.get_postcard s.buffer_len key d) d s

  -- For every tree, platform and session, a key or none, and with or without force: unless it
  -- panics, handle_store leaves the settings and the flag of an update as they were.
  pub handle_store-Leaves :
      (key : Option Bytes) (force : Bool) (s : Session tree platform)
      → Leaves tree platform s (handle_store tree platform key force s)
  unfolding handle_store
  handle_store-Leaves key force s u h =
      let (t, e, k) =
        some_steps (iter_root tree platform key (store_key tree platform force) s) _ u h in
      Same-trans tree platform s t u
        (iter_root-Leaves tree platform (store_key tree platform force) (store_key-LeavesIn force)
          key s t e)
        (say-Leaves tree platform may_need_reboot t u k)
