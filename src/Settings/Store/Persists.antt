-- ===== src/Settings/Store/Persists.antt =====
-- A forced store persists every value, on a platform whose storage behaves as a map.
use stabilizer.Prelude.{
  ℕ, ◌-◌, ◌≡◌, ◌<◌, ◌⊎◌, inl, inr, refl, arith, ap, ◌∙◌, ◌==◌, ◌&&◌, not, true, false, List, [],
  ◌∷◌, Option, none, some, Option-cases, length,
}
use stabilizer.Prelude.Results.{ok}
use stabilizer.Settings.{
  Bytes, got, Node, leaf, too_deep, Message, stored, may_need_reboot, Tree, Platform, Session,
  visit_node, visit_nodes, visit_all, iter_root,
}
use stabilizer.Settings.Persistent.Loading.{AgreeExcept}
use stabilizer.Settings.Store.{
  store_result, store_value, check_stored, store_default, store_key, handle_store,
}

-- Accesses succeed, messages change nothing in the storage, and a store of a value that is not empty
-- replaces the value of its key alone.
pub record Storage (platform : Platform) : Type 0 where
  pub view : platform.State → Bytes → Option Bytes
  pub say_lem :
      (m : Message) (s : platform.State)
      → (t : platform.State) × (platform.say m s ≡ some t) × (view t ≡ view s)
  pub fetch_lem :
      (len : ℕ) (key : Bytes) (s : platform.State)
      → (t : platform.State) × (platform.fetch len key s ≡ (t, ok (view s key))) × (view t ≡ view s)
  pub store_lem :
      (len : ℕ) (key value : Bytes) (s : platform.State)
      → 0 < length value
      → (t : platform.State) × (platform.store len key value s ≡ (t, ok tt))
        × (view t key ≡ some value)
        × AgreeExcept key (view t) (view s)

module _ (tree : Tree) (platform : Platform) (storage : Storage platform) where
  open platform use {State, Fault}

  abbrev at_state : Session tree platform → State → Session tree platform
  at_state s p = record s { platform_state = p }

  -- The values that the keys encode to, for the session and for the defaults.
  abbrev pub Encodes : (Bytes → Bytes) → Session tree platform → Bytes → Type 0
  Encodes value s key =
      (default : Bytes) × (tree.get_postcard s.buffer_len key (tree.reset s.settings) ≡ got default)
      × (tree.get_postcard s.buffer_len key s.settings ≡ got (value key))

  -- A session whose storage has the value at the key, and else what it had or the value of the key.
  abbrev Persisted : (Bytes → Bytes) → State → State → Type 0
  Persisted value p q =
      (k : Bytes) → (storage.view q k ≡ some (value k)) ⊎ (storage.view q k ≡ storage.view p k)

  check_stored_lem :
      (key : Bytes) (check : ℕ) (s : Session tree platform)
      → (q : State) × (c : ℕ) × (check_stored tree platform key check
            (platform.fetch s.buffer_len key s.platform_state)
            s
          ≡ some (at_state s q, c))
        × (storage.view q ≡ storage.view s.platform_state)
  unfolding check_stored
  check_stored_lem key check s =
      let (q, e, v) = storage.fetch_lem s.buffer_len key s.platform_state in
      elim (Option-cases (storage.view s.platform_state key)) [
        | inl nothing ↦ (q, check, rw (e, nothing) refl, v)
        | inr found ↦ let (bytes, there) = found in (q, tree.checksum bytes, rw (e, there) refl, v)
      ]

  store_key_lem :
      (value : Bytes → Bytes) (key : Bytes) (s : Session tree platform)
      → 0 < length (value key)
      → Encodes value s key
      → (q : State) × (store_key tree platform true key (tree.reset s.settings) s
          ≡ some (at_state s q, tree.reset s.settings))
        × (storage.view q key ≡ some (value key))
        × Persisted value s.platform_state q
  unfolding store_key store_default store_value store_result
  store_key_lem value key s bytes (default, default_got, value_got) =
      let check = tree.checksum default in
      let (p1, c, e1, v1) = check_stored_lem key check s in
      let rest = s.buffer_len - length (value key) in
      let (p2, e2, there, others) = storage.store_lem rest key (value key) p1 bytes in
      let (p3, e3, v3) = storage.say_lem (stored key) p2 in
      let forced : ((tree.checksum (value key) == c) && not true) ≡ false = ground arith in
      (
        p3,
        rw (default_got, e1, value_got, forced, e2, e3) refl,
        ap (λ (f : Bytes → Option Bytes). f key) v3 ∙ there,
        λ k. elim (others k) [
          | inl same ↦ inl (rw (v3, same) there)
          | inr kept ↦ inr (rw (v3, kept, v1) refl)
        ],
      )

  abbrev pub EncodesAll : (Bytes → Bytes) → Session tree platform → List Node → Type 0
  EncodesAll value s [] = Unit
  EncodesAll value s (leaf key ∷ nodes) = Encodes value s key × EncodesAll value s nodes
  EncodesAll value s (too_deep depth ∷ nodes) = ⊥

  -- The storage has the value of each path.
  abbrev pub StoresAll : (Bytes → Bytes) → State → List Node → Type 0
  StoresAll value q [] = Unit
  StoresAll value q (leaf key ∷ nodes) =
      (storage.view q key ≡ some (value key)) × StoresAll value q nodes
  StoresAll value q (too_deep depth ∷ nodes) = StoresAll value q nodes

  -- A value that is there stays there.
  still_there :
      (value : Bytes → Bytes) (p q : State) (k : Bytes)
      → storage.view p k ≡ some (value k)
      → (storage.view q k ≡ some (value k)) ⊎ (storage.view q k ≡ storage.view p k)
      → storage.view q k ≡ some (value k)
  still_there value p q k there (inl now) = now
  still_there value p q k there (inr same) = same ∙ there

  later :
      (value : Bytes → Bytes) (p q r : State)
      → Persisted value p q
      → Persisted value q r
      → Persisted value p r
  later value p q r first second k = elim (second k) [
    | inl now ↦ inl now
    | inr same ↦ elim (first k) [
      | inl there ↦ inl (same ∙ there)
      | inr before ↦ inr (same ∙ before)
    ]
  ]

  encodes_moved :
      (value : Bytes → Bytes) (s : Session tree platform) (q : State) (nodes : List Node)
      → EncodesAll value s nodes
      → EncodesAll value (at_state s q) nodes
  encodes_moved value s q [] all = tt
  encodes_moved value s q (leaf key ∷ nodes) (one, all) = (one, encodes_moved value s q nodes all)
  encodes_moved value s q (too_deep depth ∷ nodes) all = all

  visit_nodes_lem :
      (value : Bytes → Bytes) (nodes : List Node) (s : Session tree platform)
      → ((key : Bytes) → 0 < length (value key))
      → EncodesAll value s nodes
      → (q : State) × (visit_nodes tree platform
            (store_key tree platform true)
            nodes
            (tree.reset s.settings)
            s
          ≡ some (at_state s q, tree.reset s.settings))
        × StoresAll value q nodes
        × Persisted value s.platform_state q
  unfolding visit_nodes visit_node
  visit_nodes_lem value [] s bytes all = (s.platform_state, refl, tt, λ k. inr refl)
  visit_nodes_lem value (too_deep depth ∷ nodes) s bytes all = absurd all
  visit_nodes_lem value (leaf key ∷ nodes) s bytes (one, all) =
      let (p, e, there, kept) = store_key_lem value key s (bytes key) one in
      let (q, e2, rest, kept2) =
        visit_nodes_lem value nodes (at_state s p) bytes (encodes_moved value s p nodes all) in
      (
        q,
        rw (e, e2) refl,
        (still_there value p q key there (kept2 key), rest),
        later value s.platform_state p q kept kept2,
      )

  -- The store succeeds, changes nothing of the session but the storage, and the storage then has
  -- the value of each path.
  abbrev pub Persists : (Bytes → Bytes) → Session tree platform → Type 0
  Persists value s =
      (q : State) × (handle_store tree platform none true s ≡ some (at_state s q))
      × StoresAll value q tree.nodes

  stores_said :
      (value : Bytes → Bytes) (p q : State) (nodes : List Node)
      → storage.view q ≡ storage.view p
      → StoresAll value p nodes
      → StoresAll value q nodes
  stores_said value p q [] same all = tt
  stores_said value p q (leaf key ∷ nodes) same (one, all) =
      (rw same one, stores_said value p q nodes same all)
  stores_said value p q (too_deep depth ∷ nodes) same all = stores_said value p q nodes same all

  -- On a platform whose storage behaves as a map, for values that are not empty and that
  -- the session encodes to at every path, where the defaults encode too: a forced store of the whole tree succeeds, changes
  -- nothing of the session but the storage, and the storage then has the value of each path.
  pub handle_store-Persists :
      (value : Bytes → Bytes) (s : Session tree platform)
      → ((key : Bytes) → 0 < length (value key))
      → EncodesAll value s tree.nodes
      → Persists value s
  unfolding handle_store iter_root visit_all
  handle_store-Persists value s bytes all =
      let (p, e, there, kept) = visit_nodes_lem value tree.nodes s bytes all in
      let (q, said, v) = storage.say_lem may_need_reboot p in
      (q, rw (e, said) refl, stores_said value p q tree.nodes v there)
