-- ===== src/Settings/Runner/Draining.antt =====
-- A poll ends once the input that is waiting is taken.
use stabilizer.Prelude.{
  ℕ, zero, suc, ◌≡◌, ◌<◌, refl, arith, ◌∙◌, Bool, true, false, List, [], ◌∷◌, some, length,
}
use stabilizer.Prelude.Results.{ok}
use stabilizer.Settings.{Bytes, Tree, Platform, Session}
use stabilizer.Settings.Runner.{Input, input_bytes, took, poll_ready, poll_loop, poll}

abbrev pub is_waiting : List Bytes → Bool
is_waiting [] = false
is_waiting (chunk ∷ rest) = true

-- An interface that is ready while chunks of input wait, and gives one at each read.
pub record Script (platform : Platform) : Type 0 where
  pub chunks : platform.State → List Bytes
  pub ready_lem :
      (s : platform.State)
      → (t : platform.State) × (platform.read_ready s ≡ (t, ok (is_waiting (chunks s))))
        × (chunks t ≡ chunks s)
  pub read_lem :
      (s : platform.State) (chunk : Bytes) (rest : List Bytes)
      → chunks s ≡ chunk ∷ rest
      → (t : platform.State) × (platform.read 64 s ≡ (t, ok chunk)) × (chunks t ≡ rest)

module _ (tree : Tree) (platform : Platform) (script : Script platform) where
  open platform use {State}

  abbrev Sess : Type 0
  Sess = Session tree platform

  abbrev waiting : Sess → List Bytes
  waiting s = script.chunks s.platform_state

  -- The handling of a byte does not panic, and takes no input itself.
  abbrev pub IsHandler : Input tree platform → Type 0
  IsHandler input = (b : ℕ) (s : Sess) → (t : Sess) × (input b s ≡ some t) × (waiting t ≡ waiting s)

  input_bytes_lem :
      (input : Input tree platform) (bytes : Bytes) (s : Sess)
      → IsHandler input
      → (t : Sess) × (input_bytes tree platform input bytes s ≡ some t) × (waiting t ≡ waiting s)
  unfolding input_bytes
  input_bytes_lem input [] s handles = (s, refl, refl)
  input_bytes_lem input (b ∷ bytes) s handles =
      let (t, e, w) = handles b s in
      let (u, e2, w2) = input_bytes_lem input bytes t handles in (u, rw (e, e2) refl, w2 ∙ w)

  -- The loop returns with the flag of the session that it leaves, and no input waits.
  abbrev Drains : ℕ → Input tree platform → Sess → Type 0
  Drains fuel input s =
      (t : Sess) × (poll_loop tree platform fuel input s ≡ some (t, ok t.updated))
      × (waiting t ≡ [])

  poll_loop-Drains :
      (l : List Bytes) (fuel : ℕ) (input : Input tree platform) (s : Sess)
      → IsHandler input
      → waiting s ≡ l
      → length l < fuel
      → Drains fuel input s
  unfolding poll_loop poll_ready took
  poll_loop-Drains l zero input s handles w h = absurd (omega arith)
  poll_loop-Drains [] (suc fuel) input s handles w h =
      let (p, e, v) = script.ready_lem s.platform_state in
      (record s { platform_state = p }, rw (e, w) refl, v ∙ w)
  poll_loop-Drains (chunk ∷ rest) (suc fuel) input s handles w h =
      let (p, e, v) = script.ready_lem s.platform_state in
      let (p2, e2, v2) = script.read_lem p chunk rest (v ∙ w) in
      let (t, e3, v3) = input_bytes_lem input chunk (record s { platform_state = p2 }) handles in
      let (u, e4, none_left) = poll_loop-Drains rest fuel input t handles (v3 ∙ v2) (omega arith) in
      (u, rw (e, w, e2, e3, e4) refl, none_left)

  -- Over an interface that gives its input in chunks, and a handling of bytes that does not panic
  -- and takes no input itself: with more fuel than chunks that wait, poll returns the flag of an
  -- update of the session that it leaves, and no input waits.
  pub poll-Drains :
      (fuel : ℕ) (input : Input tree platform) (s : Sess)
      → IsHandler input
      → length (waiting s) < fuel
      → (t : Sess) × (poll tree platform fuel input s ≡ some (t, ok t.updated)) × (waiting t ≡ [])
  unfolding poll
  poll-Drains fuel input s handles h =
      poll_loop-Drains (waiting s) fuel input (record s { updated = false }) handles refl h
