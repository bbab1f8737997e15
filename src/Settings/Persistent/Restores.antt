-- ===== src/Settings/Persistent/Restores.antt =====
-- What the menu stores is loaded at the next start.
use stabilizer.Prelude.{
  ℕ, ◌≡◌, ◌<◌, ◌⊎◌, inl, inr, refl, arith, ap, subst, sym, ◌∙◌, true, List, [], ◌∷◌, Option, none,
  some, length,
}
use stabilizer.Settings.{Bytes, got, Node, leaf, too_deep, Tree, Platform, Session}
use stabilizer.Settings.Store.{handle_store}
use stabilizer.Settings.Store.Persists.{Storage, EncodesAll, StoresAll, handle_store-Persists}
use stabilizer.Settings.Persistent.{Flash, nonempty, load}
use stabilizer.Settings.Persistent.Loading.{
  FlashMap, AreLeaves, loaded, load_nodes-loaded, loaded-same,
}

-- A value that a key of some settings encodes to is what the key encodes to once it is set, and
-- other keys keep theirs.
abbrev pub DecodesWhatItEncodes : Tree → Type 0
DecodesWhatItEncodes tree =
    (len : ℕ) (key value : Bytes) (from t : tree.Settings)
    → tree.get_postcard len key from ≡ got value
    → (tree.get_postcard len key (tree.set_postcard key value t).0 ≡ got value)
      × ((k : Bytes)
          → (k ≡ key)
            ⊎ (tree.get_postcard len k (tree.set_postcard key value t).0
                ≡ tree.get_postcard len k t))

nonempty-nonempty : (o : Option Bytes) → nonempty (nonempty o) ≡ nonempty o
nonempty-nonempty none = refl
nonempty-nonempty (some []) = refl
nonempty-nonempty (some (b ∷ bytes)) = refl

pub nonempty-some : (bytes : Bytes) → 0 < length bytes → nonempty (some bytes) ≡ some bytes
nonempty-some [] h = absurd (omega arith)
nonempty-some (b ∷ bytes) h = refl

module _ (flash : Flash) (flash_map : FlashMap flash) (tree : Tree) (platform : Platform)
    (storage : Storage platform) (decodes : DecodesWhatItEncodes tree) (value : Bytes → Bytes)
    (some_bytes : (key : Bytes) → 0 < length (value key)) (s : Session tree platform) where
  -- The key of these settings encodes to the value.
  abbrev HasValue : tree.Settings → Bytes → Type 0
  HasValue t key = tree.get_postcard s.buffer_len key t ≡ got (value key)

  abbrev pub HasValues : tree.Settings → List Node → Type 0
  HasValues t [] = Unit
  HasValues t (leaf key ∷ nodes) = HasValue t key × HasValues t nodes
  HasValues t (too_deep depth ∷ nodes) = HasValues t nodes

  abbrev from_storage : List Node → platform.State → tree.Settings → tree.Settings
  from_storage nodes q t = loaded flash tree flash_map nodes (storage.view q) t

  -- One key is loaded: it has its value, and the others keep theirs.
  set-HasValue :
      (key k : Bytes) (t : tree.Settings)
      → HasValue s.settings key
      → (k ≡ key) ⊎ HasValue t k
      → HasValue (tree.set_postcard key (value key) t).0 k
  set-HasValue key k t encodes known =
      let (now, others) = decodes s.buffer_len key (value key) s.settings t encodes in
      elim (others k) [
        | inl same ↦ rw same now
        | inr kept ↦ elim known [ inl same ↦ rw same now | inr before ↦ kept ∙ before ]
      ]

  -- A key that has its value, or is the next one, has it after the rest is loaded.
  loaded-HasValue :
      (nodes : List Node) (q : platform.State) (t : tree.Settings) (k : Bytes)
      → EncodesAll tree platform storage value s nodes
      → StoresAll tree platform storage value q nodes
      → HasValue t k
      → HasValue (from_storage nodes q t) k
  loaded-HasValue [] q t k all there has = has
  loaded-HasValue (too_deep depth ∷ nodes) q t k all there has = absurd all
  loaded-HasValue (leaf key ∷ nodes) q t k ((_, _, encodes), all) (here, there) has =
      rw (here, nonempty-some (value key) (some_bytes key))
        (loaded-HasValue nodes q (tree.set_postcard key (value key) t).0 k all there
          (set-HasValue key k t encodes (inr has)))

  loaded-HasValues :
      (nodes : List Node) (q : platform.State) (t : tree.Settings)
      → EncodesAll tree platform storage value s nodes
      → StoresAll tree platform storage value q nodes
      → HasValues (from_storage nodes q t) nodes
  loaded-HasValues [] q t all there = tt
  loaded-HasValues (too_deep depth ∷ nodes) q t all there = absurd all
  loaded-HasValues (leaf key ∷ nodes) q t ((_, _, encodes), all) (here, there) =
      let u = (tree.set_postcard key (value key) t).0 in
      let step : from_storage (leaf key ∷ nodes) q t ≡ from_storage nodes q u =
        rw (here, nonempty-some (value key) (some_bytes key)) refl in
      subst (λ x. HasValues x (leaf key ∷ nodes)) (sym step)
        (
          loaded-HasValue nodes q u key all there (set-HasValue key key t encodes (inl refl)),
          loaded-HasValues nodes q u all there,
        )

  -- For a storage and a flash that behave as maps, of which the flash at the next start has the
  -- values of the storage and else empty ones, a tree that decodes what it encodes, and a session
  -- that encodes to values that are not empty, at paths that all fit: a forced store of the whole
  -- tree succeeds, and load at the next start, over any settings, gives settings that encode to
  -- these values at each path.
  pub load-handle_store :
      (restart : platform.State → flash.State)
      → ((q : platform.State) (k : Bytes)
          → nonempty (flash_map.view (restart q) k) ≡ storage.view q k)
      → AreLeaves tree.nodes
      → EncodesAll tree platform storage value s tree.nodes
      → (fresh : tree.Settings)
      → (q : platform.State) × (u : tree.Settings) × (w : flash.State) × (handle_store tree platform
            none true s
          ≡ some (record s { platform_state = q }))
        × (load flash tree fresh (restart q) ≡ some (u, w))
        × HasValues u tree.nodes
  unfolding load
  load-handle_store restart kept leaves all fresh =
      let (q, e, there) = handle_store-Persists tree platform storage value s some_bytes all in
      let (w, e2, _) = load_nodes-loaded flash tree flash_map tree.nodes fresh (restart q) leaves in
      let same =
        loaded-same flash tree flash_map tree.nodes (flash_map.view (restart q)) (storage.view q)
          fresh
          (λ k. sym (nonempty-nonempty (flash_map.view (restart q) k)) ∙ ap nonempty (kept q k)) in
      (
        q,
        from_storage tree.nodes q fresh,
        w,
        e,
        e2 ∙ ap (λ x. some (x, w)) same,
        loaded-HasValues tree.nodes q fresh all there,
      )
