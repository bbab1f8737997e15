-- ===== src/Settings/Tests/Restart.antt =====
-- Settings that are a table of numbers, of which two are stored, and a start with other numbers.
use stabilizer.Prelude.{
  ℕ, ◌≡◌, ◌⊎◌, inl, inr, refl, sym, arith, ap, Bool-cases, true, [], ◌∷◌, Option, none, some,
  if◌then◌else◌, get_or,
}
use stabilizer.Settings.{
  Bytes, Got, absent, get_failed, got, set_done, set_absent, leaf, Tree, Session,
}
use stabilizer.Settings.Store.{handle_store}
use stabilizer.Settings.Persistent.{load}
use stabilizer.Settings.Persistent.Restores.{DecodesWhatItEncodes, HasValues, load-handle_store}
use stabilizer.Settings.Tests.{
  same_bytes, same_bytes_lem, same_itself, flash, flash_map, platform, storage,
}

abbrev table : Tree
table = record {
  Settings = Bytes → ℕ;
  nodes = leaf (1 ∷ []) ∷ leaf (2 ∷ []) ∷ [];
  root = λ key. none;
  reset = λ t k. 0;
  get_json = λ len key t. got (t key ∷ []);
  get_postcard = λ len key t. got (t key ∷ []);
  set_json = λ key value t. (t, set_absent);
  set_postcard = λ key value t. (λ k. if same_bytes k key then get_or value 0 0 else t k, set_done);
  checksum = λ bytes. get_or bytes 0 0;
}

first_of : Got → ℕ
first_of absent = 0
first_of get_failed = 0
first_of (got bytes) = get_or bytes 0 0

kept_elsewhere :
    (key k value : Bytes) (t : Bytes → ℕ)
    → (k ≡ key) ⊎ (got ((if same_bytes k key then get_or value 0 0 else t k) ∷ []) ≡ got (t k ∷ []))
kept_elsewhere key k value t = elim (Bool-cases (same_bytes k key)) [
  | inl same ↦ inl (same_bytes_lem k key same)
  | inr other ↦ inr (rw other refl)
]

decodes : DecodesWhatItEncodes table
unfolding first_of
decodes len key value from t encodes =
    (rw (same_itself key, ap first_of (sym encodes)) encodes, λ k. kept_elsewhere key k value t)

abbrev numbers : Bytes → ℕ
numbers key = if same_bytes key (1 ∷ []) then 3 else 4

abbrev running : Session table platform
running = record { platform_state = λ k. none; buffer_len = 64; updated = true; settings = numbers }

load-handle_store_example :
    (q : Bytes → Option Bytes) × (u : Bytes → ℕ) × (w : Bytes → Option Bytes) × (handle_store table
        platform none true running
      ≡ some (record running { platform_state = q }))
    × (load flash table (λ k. 9) q ≡ some (u, w))
    × HasValues flash flash_map table platform storage decodes
        (λ k. numbers k ∷ [])
        (λ k. omega arith)
        running
        u
        (leaf (1 ∷ []) ∷ leaf (2 ∷ []) ∷ [])
load-handle_store_example =
    load-handle_store flash flash_map table platform storage decodes (λ k. numbers k ∷ [])
      (λ k. omega arith) running (λ q. q) (λ q k. refl) tt
      ((0 ∷ [], refl, refl), ((0 ∷ [], refl, refl), tt)) (λ k. 9)
