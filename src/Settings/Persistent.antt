-- ===== src/Settings/Persistent.antt =====
-- src/settings.rs, `SerialSettingsPlatform`: settings in flash. The map of the crate
-- sequential_storage is a parameter.
pub mod Loading
pub mod Restores
pub mod Commands
use stabilizer.Prelude.{
  ℕ, ◌+◌, ltb, Bool, true, false, not, List, [], ◌∷◌, Option, none, some, length, if◌then◌else◌,
}
use stabilizer.Prelude.Results.{Result, ok, err, ◌>>=◌}
use stabilizer.Settings.{Bytes, Node, leaf, too_deep, Set, Tree}

pub record Flash : Type 1 where
  pub State : Type 0
  pub Fault : Type 0
  pub fetch_item : Bytes → State → State × Result Fault (Option Bytes)
  pub store_item : Bytes → Bytes → State → State × Result Fault (Unit {0})

-- An empty value marks a key that is cleared.
abbrev pub nonempty : Option Bytes → Option Bytes
nonempty none = none
nonempty (some []) = none
nonempty (some (b ∷ bytes)) = some (b ∷ bytes)

module _ (flash : Flash) where
  open flash use {State, Fault}

  -- `Vec::<u8, 128>::try_from(key).unwrap()`, with what is then done.
  abbrev with_key : {A : Type 0} → Bytes → (State → A) → State → Option A
  with_key key call s = if ltb 128 (length key) then none else some (call s)

  filtered : State × Result Fault (Option Bytes) → State × Result Fault (Option Bytes)
  filtered (s, ok found) = (s, ok (nonempty found))
  filtered (s, err e) = (s, err e)

  unfoldable pub fetch : Bytes → State → Option (State × Result Fault (Option Bytes))
  unfolding filtered
  fetch key = with_key key (λ s. filtered (flash.fetch_item key s))

  unfoldable pub store : Bytes → Bytes → State → Option (State × Result Fault (Unit {0}))
  store key value = with_key key (flash.store_item key value)

  unfoldable pub clear : Bytes → State → Option (State × Result Fault (Unit {0}))
  clear key = store key []

  module _ (tree : Tree) where
    -- What one path of `load` does with what was fetched; a failure leaves what it left.
    load_value : Bytes → Result Fault (Option Bytes) → tree.Settings → tree.Settings
    load_value path (err e) t = t
    load_value path (ok none) t = t
    load_value path (ok (some [])) t = t
    load_value path (ok (some (b ∷ bytes))) t = (tree.set_postcard path (b ∷ bytes) t).0

    -- `load` over the nodes; `path.unwrap()` panics where a path does not fit.
    unfoldable pub load_nodes : List Node → tree.Settings → State → Option (tree.Settings × State)
    unfolding load_value
    load_nodes [] t s = some (t, s)
    load_nodes (too_deep depth ∷ nodes) t s = none
    load_nodes (leaf path ∷ nodes) t s =
        let (s, found) = flash.fetch_item path s in load_nodes nodes (load_value path found t) s

    unfoldable pub load : tree.Settings → State → Option (tree.Settings × State)
    load t s = load_nodes tree.nodes t s
