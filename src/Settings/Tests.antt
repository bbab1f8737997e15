-- ===== src/Settings/Tests.antt =====
-- A tree of two numbers, a platform and a flash that are maps.
pub mod Console
mod Restart
use stabilizer.Prelude.{
  ℕ, ◌≡◌, ◌⊎◌, inl, inr, ◌==◌, ==_iff, Bool-cases, ◌&&◌, true, false, Bool, [], ◌∷◌, Option, none,
  some, if◌then◌else◌, refl, arith, ap, ap₂, get_or,
}
use stabilizer.Prelude.Results.{Result, ok}
use stabilizer.Settings.{Bytes, got, set_done, set_absent, leaf, Tree, Platform, Session}
use stabilizer.Settings.Keeps.{Leaves}
use stabilizer.Settings.Store.{handle_store}
use stabilizer.Settings.Store.Reads.{handle_store-Leaves}
use stabilizer.Settings.Store.Persists.{Storage, EncodesAll, Persists, handle_store-Persists}
use stabilizer.Prelude.{List}
use stabilizer.Settings.Runner.{Input, poll}
use stabilizer.Settings.Runner.Draining.{is_waiting, Script, poll-Drains}
use stabilizer.Settings.Get.{handle_get}
use stabilizer.Settings.Get.Reads.{handle_get-Leaves}
use stabilizer.Settings.Clear.{handle_clear}
use stabilizer.Settings.Clear.Clears.{RemovesKeys, IsTotal, HasNone, handle_clear-HasNone}
use stabilizer.Settings.Persistent.{Flash, nonempty}
use stabilizer.Settings.Persistent.Restores.{nonempty-some}
use stabilizer.Settings.Persistent.Loading.{FlashMap, Erases, clear-Erases}

unfoldable pub same_bytes : Bytes → Bytes → Bool
same_bytes [] [] = true
same_bytes (a ∷ xs) (b ∷ ys) = (a == b) && same_bytes xs ys
same_bytes _ _ = false

and_true : (a b : Bool) → (a && b) ≡ true → (a ≡ true) × (b ≡ true)
and_true a b h = (ground arith, ground arith)

pub same_bytes_lem : (a b : Bytes) → same_bytes a b ≡ true → a ≡ b
unfolding same_bytes
same_bytes_lem [] [] h = refl
same_bytes_lem (a ∷ xs) (b ∷ ys) h =
    let (first, rest) = and_true (a == b) (same_bytes xs ys) h in
    ap₂ (λ (x : ℕ) (l : Bytes). x ∷ l) ((==_iff a b).0 first) (same_bytes_lem xs ys rest)
same_bytes_lem [] (b ∷ ys) h = absurd (ground arith)
same_bytes_lem (a ∷ xs) [] h = absurd (ground arith)

abbrev pub flash : Flash
flash = record {
  State = Bytes → Option Bytes;
  Fault = Unit {0};
  fetch_item = λ key s. (s, ok (s key));
  store_item = λ key value s. (λ k. if same_bytes k key then some value else s k, ok tt);
}

pub same_itself : (a : Bytes) → same_bytes a a ≡ true
unfolding same_bytes
same_itself [] = refl
same_itself (a ∷ xs) = ground (arith, same_itself xs)

pub stored_elsewhere :
    (key value k : Bytes) (s : Bytes → Option Bytes)
    → (k ≡ key) ⊎ ((if same_bytes k key then some value else s k) ≡ s k)
stored_elsewhere key value k s = elim (Bool-cases (same_bytes k key)) [
  | inl same ↦ inl (same_bytes_lem k key same)
  | inr other ↦ inr (rw other refl)
]

abbrev pub flash_map : FlashMap flash
flash_map = record {
  view = λ s. s;
  fetch_lem = λ key s. (s, refl, refl);
  store_lem = λ key value s. (
    λ k. if same_bytes k key then some value else s k,
    refl,
    rw (same_itself key) refl,
    λ k. stored_elsewhere key value k s,
  );
}

-- The two leaves have the paths 1 and 2, and a number each.
abbrev pub tree : Tree
tree = record {
  Settings = ℕ × ℕ;
  nodes = leaf (1 ∷ []) ∷ leaf (2 ∷ []) ∷ [];
  root = λ key. if same_bytes key (1 ∷ []) then some (leaf (1 ∷ []) ∷ []) else none;
  reset = λ t. (0, 0);
  get_json = λ len key t. if same_bytes key (1 ∷ []) then got (t.0 ∷ []) else got (t.1 ∷ []);
  get_postcard = λ len key t. if same_bytes key (1 ∷ []) then got (t.0 ∷ []) else got (t.1 ∷ []);
  set_json = λ key value t. (t, set_absent);
  set_postcard = λ key value t. (
    if same_bytes key (1 ∷ []) then (get_or value 0 0, t.1) else (t.0, get_or value 0 0),
    set_done,
  );
  checksum = λ bytes. get_or bytes 0 0;
}

clear-Erases_example : Erases flash tree flash_map (1 ∷ []) (λ k. some (7 ∷ []))
clear-Erases_example =
    clear-Erases flash tree flash_map (1 ∷ []) (λ k. some (7 ∷ [])) (omega arith) tt

abbrev pub platform : Platform
platform = record {
  State = Bytes → Option Bytes;
  Fault = Unit {0};
  fetch = λ len key s. (s, ok (nonempty (s key)));
  store = λ len key value s. (λ k. if same_bytes k key then some value else s k, ok tt);
  clear = λ len key s. (λ k. if same_bytes k key then none else s k, ok tt);
  cmd = λ key s. s;
  say = λ message s. some s;
  read_ready = λ s. (s, ok false);
  read = λ len s. (s, ok []);
}

abbrev pub session : Session tree platform
session = record { platform_state = λ k. none; buffer_len = 64; updated = false; settings = (3, 4) }

-- Of a function with an entry for each key, at another key.
pub seen_elsewhere :
    (key k : Bytes) (x y : Option Bytes)
    → (k ≡ key) ⊎ (x ≡ y)
    → (k ≡ key) ⊎ (nonempty x ≡ nonempty y)
seen_elsewhere key k x y (inl same) = inl same
seen_elsewhere key k x y (inr kept) = inr (ap nonempty kept)

abbrev pub storage : Storage platform
storage = record {
  view = λ s k. nonempty (s k);
  say_lem = λ m s. (s, refl, refl);
  fetch_lem = λ len key s. (s, refl, refl);
  store_lem = λ len key value s bytes. (
    λ k. if same_bytes k key then some value else s k,
    refl,
    rw (same_itself key) (nonempty-some value bytes),
    λ k. seen_elsewhere key k _ _ (stored_elsewhere key value k s),
  );
}

removed_elsewhere :
    (key k : Bytes) (s : Bytes → Option Bytes)
    → (k ≡ key) ⊎ ((if same_bytes k key then none else s k) ≡ s k)
removed_elsewhere key k s = elim (Bool-cases (same_bytes k key)) [
  | inl same ↦ inl (same_bytes_lem k key same)
  | inr other ↦ inr (rw other refl)
]

platform-RemovesKeys : RemovesKeys platform storage
platform-RemovesKeys len key s = (
  λ k. if same_bytes k key then none else s k,
  refl,
  rw (same_itself key) refl,
  λ k. seen_elsewhere key k _ _ (removed_elsewhere key k s),
)

encoded : (b : Bool) (x y : Bytes) → (v : Bytes) × ((if b then got x else got y) ≡ got v)
encoded true x y = (x, refl)
encoded false x y = (y, refl)

tree-IsTotal : IsTotal tree
tree-IsTotal = (
  λ len key t. encoded (same_bytes key (1 ∷ [])) (t.0 ∷ []) (t.1 ∷ []),
  λ key value t.
      (if same_bytes key (1 ∷ []) then (get_or value 0 0, t.1) else (t.0, get_or value 0 0), refl),
)

handle_clear-HasNone_example :
    (t : Session tree platform) × (handle_clear tree platform none session ≡ some t)
    × (t.updated ≡ true)
    × HasNone tree platform storage platform-RemovesKeys tree-IsTotal t.platform_state
        (leaf (1 ∷ []) ∷ leaf (2 ∷ []) ∷ [])
handle_clear-HasNone_example =
    handle_clear-HasNone tree platform storage platform-RemovesKeys tree-IsTotal session tt
