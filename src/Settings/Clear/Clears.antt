-- ===== src/Settings/Clear/Clears.antt =====
-- A clear removes every stored value, on a platform whose storage behaves as a map.
use stabilizer.Prelude.{
  ℕ, ◌≡◌, ◌⊎◌, inl, inr, refl, ◌∙◌, ◌==◌, true, Bool-cases, List, [], ◌∷◌, Option, none, some,
  Option-cases,
}
use stabilizer.Prelude.Results.{ok}
use stabilizer.Settings.{
  Bytes, got, set_done, Node, leaf, too_deep, cleared_current, cleared_stored, may_need_reboot,
  Tree, Platform, Session, visit_node, visit_nodes, visit_all, iter_root,
}
use stabilizer.Settings.Persistent.Loading.{AgreeExcept, AreLeaves}
use stabilizer.Settings.Store.Persists.{Storage}
use stabilizer.Settings.Clear.{
  clear_result, clear_fetched, clear_stored, set_default, clear_default, clear_current, clear_key,
  handle_clear,
}

-- A clear removes the value of its key alone.
abbrev pub RemovesKeys : (platform : Platform) → Storage platform → Type 0
RemovesKeys platform storage =
    (len : ℕ) (key : Bytes) (s : platform.State)
    → (t : platform.State) × (platform.clear len key s ≡ (t, ok tt))
      × (storage.view t key ≡ none)
      × AgreeExcept key (storage.view t) (storage.view s)

-- Every value encodes, and every encoded value can be set.
abbrev pub IsTotal : Tree → Type 0
IsTotal tree =
    ((len : ℕ) (key : Bytes) (t : tree.Settings)
      → (v : Bytes) × (tree.get_postcard len key t ≡ got v))
    × ((key value : Bytes) (t : tree.Settings)
        → (u : tree.Settings) × (tree.set_postcard key value t ≡ (u, set_done)))

module _ (tree : Tree) (platform : Platform) (storage : Storage platform)
    (removes : RemovesKeys platform storage) (total : IsTotal tree) where
  open platform use {State, Fault}

  abbrev Sess : Type 0
  Sess = Session tree platform

  -- Each key is removed or as it was.
  abbrev Removed : State → State → Type 0
  Removed p q = (k : Bytes) → (storage.view q k ≡ none) ⊎ (storage.view q k ≡ storage.view p k)

  -- The visit of a key succeeds, removes it from the storage, and adds nothing.
  abbrev Clears : Bytes → tree.Settings → Sess → Option (Sess × tree.Settings) → Type 0
  Clears key defaults s o =
      (t : Sess) × (o ≡ some (t, defaults))
      × (storage.view t.platform_state key ≡ none)
      × Removed s.platform_state t.platform_state

  clear_stored-Clears :
      (key : Bytes) (defaults : tree.Settings) (s : Sess)
      → Clears key defaults s (clear_stored tree platform key defaults s)
  unfolding clear_stored clear_fetched clear_result
  clear_stored-Clears key defaults s =
      let (p, e, v) = storage.fetch_lem s.buffer_len key s.platform_state in
      elim (Option-cases (storage.view s.platform_state key)) [
        | inl nothing ↦ (
          record s { platform_state = p },
          rw (e, nothing) refl,
          rw (v, nothing) refl,
          λ k. inr (rw v refl),
        )
        | inr found ↦
            let (bytes, there) = found in
            let (p2, e2, gone, others) = removes s.buffer_len key p in
            let (p3, e3, v3) = storage.say_lem (cleared_stored key) p2 in
            (
              record s { platform_state = p3 },
              rw (e, there, e2, e3) refl,
              rw v3 gone,
              λ k. elim (others k) [
                | inl same ↦ inl (rw (v3, same) gone)
                | inr kept ↦ inr (rw (v3, kept, v) refl)
              ],
            )
      ]

  clear_default-Clears :
      (key : Bytes) (check : ℕ) (v : Bytes) (defaults : tree.Settings) (s : Sess)
      → Clears key defaults s (clear_default tree platform key check (got v) defaults s)
  unfolding clear_default set_default
  clear_default-Clears key check v defaults s = elim (Bool-cases (tree.checksum v == check)) [
    | inl same ↦ rw same (clear_stored-Clears key defaults s)
    | inr other ↦
        let (settings, e) = total.1 key v s.settings in
        let (p, e2, view) = storage.say_lem (cleared_current key) s.platform_state in
        let s2 : Sess = record s { platform_state = p; settings = settings; updated = true } in
        let (t, e3, gone, kept) = clear_stored-Clears key defaults s2 in
        (
          t,
          rw (other, e, e2, e3) refl,
          gone,
          λ k. elim (kept k) [ inl now ↦ inl now | inr same ↦ inr (rw (same, view) refl) ],
        )
  ]

  clear_key-Clears :
      (key : Bytes) (defaults : tree.Settings) (s : Sess)
      → Clears key defaults s (clear_key tree platform key defaults s)
  unfolding clear_key clear_current
  clear_key-Clears key defaults s =
      let (v, e) = total.0 s.buffer_len key s.settings in
      let (d, e2) = total.0 s.buffer_len key defaults in
      rw (e, e2) (clear_default-Clears key (tree.checksum v) d defaults s)

  -- The storage has no value at any path.
  abbrev pub HasNone : State → List Node → Type 0
  HasNone q [] = Unit
  HasNone q (leaf key ∷ nodes) = (storage.view q key ≡ none) × HasNone q nodes
  HasNone q (too_deep depth ∷ nodes) = HasNone q nodes

  still_gone :
      (p q : State) (k : Bytes)
      → storage.view p k ≡ none
      → (storage.view q k ≡ none) ⊎ (storage.view q k ≡ storage.view p k)
      → storage.view q k ≡ none
  still_gone p q k gone (inl now) = now
  still_gone p q k gone (inr same) = same ∙ gone

  visit_nodes-HasNone :
      (nodes : List Node) (defaults : tree.Settings) (s : Sess)
      → AreLeaves nodes
      → (t : Sess) × (visit_nodes tree platform (clear_key tree platform) nodes defaults s
          ≡ some (t, defaults))
        × HasNone t.platform_state nodes
        × Removed s.platform_state t.platform_state
  unfolding visit_nodes visit_node
  visit_nodes-HasNone [] defaults s leaves = (s, refl, tt, λ k. inr refl)
  visit_nodes-HasNone (too_deep depth ∷ nodes) defaults s leaves = absurd leaves
  visit_nodes-HasNone (leaf key ∷ nodes) defaults s leaves =
      let (t, e, gone, removed) = clear_key-Clears key defaults s in
      let (u, e2, rest, removed2) = visit_nodes-HasNone nodes defaults t leaves in
      (
        u,
        rw (e, e2) refl,
        (still_gone t.platform_state u.platform_state key gone (removed2 key), rest),
        λ k. elim (removed2 k) [
          | inl now ↦ inl now
          | inr same ↦ elim (removed k) [
            | inl before ↦ inl (same ∙ before)
            | inr kept ↦ inr (same ∙ kept)
          ]
        ],
      )

  none_said :
      (p q : State) (nodes : List Node)
      → storage.view q ≡ storage.view p
      → HasNone p nodes
      → HasNone q nodes
  none_said p q [] same all = tt
  none_said p q (leaf key ∷ nodes) same (one, all) = (rw same one, none_said p q nodes same all)
  none_said p q (too_deep depth ∷ nodes) same all = none_said p q nodes same all

  -- On a platform whose storage behaves as a map, for a tree whose paths all fit and whose values
  -- all encode and can be set: a clear of the whole tree succeeds, sets the flag of an update, and
  -- the storage then has no value at any path.
  pub handle_clear-HasNone :
      (s : Sess)
      → AreLeaves tree.nodes
      → (t : Sess) × (handle_clear tree platform none s ≡ some t)
        × (t.updated ≡ true)
        × HasNone t.platform_state tree.nodes
  unfolding handle_clear iter_root visit_all
  handle_clear-HasNone s leaves =
      let (t, e, gone, _) = visit_nodes-HasNone tree.nodes (tree.reset s.settings) s leaves in
      let (p, said, view) = storage.say_lem may_need_reboot t.platform_state in
      (
        record t { platform_state = p; updated = true },
        rw (e, said) refl,
        refl,
        none_said t.platform_state p tree.nodes view gone,
      )
