-- ===== src/Settings/Persistent/Loading.antt =====
-- What is loaded from a flash that behaves as a map.
use stabilizer.Prelude.{
  ◌≡◌, ◌≤◌, ◌⊎◌, inl, inr, ltb, refl, arith, ap, ◌∙◌, false, List, [], ◌∷◌, Option, none, some,
  length,
}
use stabilizer.Prelude.Results.{ok}
use stabilizer.Settings.{Bytes, Node, leaf, too_deep, Tree}
use stabilizer.Settings.Persistent.{
  Flash, nonempty, fetch, clear, store, filtered, load_value, load_nodes, load,
}

-- The two maps are the same but at a key.
abbrev pub AgreeExcept : Bytes → (Bytes → Option Bytes) → (Bytes → Option Bytes) → Type 0
AgreeExcept key f g = (k : Bytes) → (k ≡ key) ⊎ (f k ≡ g k)

-- Accesses succeed; a store replaces the value of its key alone.
pub record FlashMap (flash : Flash) : Type 0 where
  pub view : flash.State → Bytes → Option Bytes
  pub fetch_lem :
      (key : Bytes) (s : flash.State)
      → (t : flash.State) × (flash.fetch_item key s ≡ (t, ok (view s key))) × (view t ≡ view s)
  pub store_lem :
      (key value : Bytes) (s : flash.State)
      → (t : flash.State) × (flash.store_item key value s ≡ (t, ok tt))
        × (view t key ≡ some value)
        × AgreeExcept key (view t) (view s)

-- The paths of the nodes all fit.
abbrev pub AreLeaves : List Node → Type 0
AreLeaves [] = Unit
AreLeaves (leaf path ∷ nodes) = AreLeaves nodes
AreLeaves (too_deep depth ∷ nodes) = ⊥

module _ (flash : Flash) (tree : Tree) (flash_map : FlashMap flash) where
  open flash use {State}

  abbrev pub loaded_value : Bytes → Option Bytes → tree.Settings → tree.Settings
  loaded_value path none t = t
  loaded_value path (some bytes) t = (tree.set_postcard path bytes t).0

  -- The reference: each value that is stored and not empty is set, in the order of the paths.
  abbrev pub loaded : List Node → (Bytes → Option Bytes) → tree.Settings → tree.Settings
  loaded [] view t = t
  loaded (too_deep depth ∷ nodes) view t = loaded nodes view t
  loaded (leaf path ∷ nodes) view t = loaded nodes view (loaded_value path (nonempty (view path)) t)

  load_value-nonempty :
      (path : Bytes) (found : Option Bytes) (t : tree.Settings)
      → load_value flash tree path (ok found) t ≡ loaded_value path (nonempty found) t
  unfolding load_value
  load_value-nonempty path none t = refl
  load_value-nonempty path (some []) t = refl
  load_value-nonempty path (some (b ∷ bytes)) t = refl

  pub load_nodes-loaded :
      (nodes : List Node) (t : tree.Settings) (s : State)
      → AreLeaves nodes
      → (u : State) × (load_nodes flash tree nodes t s
          ≡ some (loaded nodes (flash_map.view s) t, u))
        × (flash_map.view u ≡ flash_map.view s)
  unfolding load_nodes
  load_nodes-loaded [] t s leaves = (s, refl, refl)
  load_nodes-loaded (too_deep depth ∷ nodes) t s leaves = absurd leaves
  load_nodes-loaded (leaf path ∷ nodes) t s leaves =
      let (s2, e, v) = flash_map.fetch_lem path s in
      let found = flash_map.view s path in
      let t2 = loaded_value path (nonempty found) t in
      let (u, e2, v2) = load_nodes-loaded nodes t2 s2 leaves in
      (
        u,
        rw (e, load_value-nonempty path found t, e2)
            (ap (λ (f : Bytes → Option Bytes). some (loaded nodes f t2, u)) v),
        v2 ∙ v,
      )

  pub loaded-same :
      (nodes : List Node) (f g : Bytes → Option Bytes) (t : tree.Settings)
      → ((k : Bytes) → nonempty (f k) ≡ nonempty (g k))
      → loaded nodes f t ≡ loaded nodes g t
  loaded-same [] f g t same = refl
  loaded-same (too_deep depth ∷ nodes) f g t same = loaded-same nodes f g t same
  loaded-same (leaf path ∷ nodes) f g t same =
      ap (λ o. loaded nodes f (loaded_value path o t)) (same path)
      ∙ loaded-same nodes f g (loaded_value path (nonempty (g path)) t) same

  -- Once a key is cleared it is not fetched, and what is loaded is what a flash gives that never
  -- had the key.
  abbrev pub Erases : Bytes → State → Type 0
  Erases key s =
      (t : State) × (u : State) × (clear flash key s ≡ some (t, ok tt))
      × (fetch flash key t ≡ some (u, ok none))
      × ((never : State) (settings : tree.Settings)
          → flash_map.view never key ≡ none
          → AgreeExcept key (flash_map.view s) (flash_map.view never)
          → (v w : State) × (loads : tree.Settings) × (load flash tree settings t ≡ some (loads, v))
            × (load flash tree settings never ≡ some (loads, w)))

  -- A cleared map loads like one without the key.
  erased :
      (key : Bytes) (before after never : Bytes → Option Bytes)
      → after key ≡ some []
      → AgreeExcept key after before
      → never key ≡ none
      → AgreeExcept key before never
      → (k : Bytes) → nonempty (after k) ≡ nonempty (never k)
  erased key before after never empty others none_there agree k = elim (others k) [
    | inl same ↦ rw (same, empty, none_there) refl
    | inr kept ↦ elim (agree k) [
      | inl same ↦ rw (same, empty, none_there) refl
      | inr equal ↦ ap nonempty (kept ∙ equal)
    ]
  ]

  -- On a flash that behaves as a map, for a key of at most 128 bytes and a tree whose paths all
  -- fit: a clear succeeds, the key is then not fetched, and load gives the settings that it gives
  -- from any flash that never had the key and has the other keys as before.
  pub clear-Erases :
      (key : Bytes) (s : State) → length key ≤ 128 → AreLeaves tree.nodes → Erases key s
  unfolding clear store fetch filtered load
  clear-Erases key s short leaves =
      let (t, e, empty, others) = flash_map.store_lem key [] s in
      let (u, e2, v2) = flash_map.fetch_lem key t in
      let fits : ltb 128 (length key) ≡ false = ground arith in
      (
        t,
        u,
        rw (fits, e) refl,
        rw (fits, e2, empty) refl,
        λ never settings none_there agree.
            let (v, e3, _) = load_nodes-loaded tree.nodes settings t leaves in
            let (w, e4, _) = load_nodes-loaded tree.nodes settings never leaves in
            let same = loaded-same tree.nodes (flash_map.view t) (flash_map.view never) settings (
              erased key (flash_map.view s) (flash_map.view t) (flash_map.view never) empty others
                none_there agree) in
            (
              v,
              w,
              loaded tree.nodes (flash_map.view never) settings,
              e3 ∙ ap (λ x. some (x, v)) same,
              e4,
            ),
      )
