-- ===== src/Hardware/Timers/Captures.antt =====
-- A poll tells whether there was no capture since the last, one, or more.
use stabilizer.Prelude.{
  ℕ, ◌≡◌, refl, ◌∙◌, ◌||◌, Bool, true, false, List, [], ◌∷◌, Option, none, some,
}
use stabilizer.Prelude.Results.{Result, ok, err}
use stabilizer.Hardware.Timers.{CaptureHardware, latest_capture}

-- What the reference manual says of the status bits: a capture sets its flag, and the over-capture
-- if the flag was set; the read of the value clears the flag.
pub record CaptureLaws (hardware : CaptureHardware) : Type 0 where
  pub capture : ℕ → hardware.State → hardware.State
  pub value : hardware.State → ℕ
  pub is_captured-capture : (v : ℕ) (s : hardware.State) → hardware.is_captured (capture v s) ≡ true
  pub is_overcaptured-capture :
      (v : ℕ) (s : hardware.State)
      → hardware.is_overcaptured (capture v s)
        ≡ (hardware.is_overcaptured s || hardware.is_captured s)
  pub value-capture : (v : ℕ) (s : hardware.State) → value (capture v s) ≡ v
  pub read_value_lem :
      (s : hardware.State)
      → ((hardware.read_value s).1 ≡ value s)
        × (hardware.is_captured (hardware.read_value s).0 ≡ false)
        × (hardware.is_overcaptured (hardware.read_value s).0 ≡ hardware.is_overcaptured s)
  pub clear_lem :
      (s : hardware.State)
      → (hardware.is_captured (hardware.clear_overcapture s) ≡ hardware.is_captured s)
        × (hardware.is_overcaptured (hardware.clear_overcapture s) ≡ false)

-- What a poll gives after these captures, the last of them first.
abbrev pub expected : List ℕ → Result (Option ℕ) (Option ℕ)
expected [] = ok none
expected (v ∷ []) = ok (some v)
expected (v ∷ w ∷ vs) = err (some v)

module _ (hardware : CaptureHardware) (laws : CaptureLaws hardware) where
  open hardware use {State, is_captured, is_overcaptured}

  -- Nothing waits.
  abbrev pub IsClear : State → Type 0
  IsClear s = (is_captured s ≡ false) × (is_overcaptured s ≡ false)

  -- The captures of a list, the last of them first.
  abbrev pub captured : List ℕ → State → State
  captured [] s = s
  captured (v ∷ vs) s = laws.capture v (captured vs s)

  overcaptured :
      (v w : ℕ) (vs : List ℕ) (s : State) → is_overcaptured (captured (v ∷ w ∷ vs) s) ≡ true
  overcaptured v w vs s =
      let t = captured vs s in
      rw (laws.is_overcaptured-capture v (laws.capture w t), laws.is_captured-capture w t)
        (or_true (is_overcaptured (laws.capture w t)))
    where
      or_true : (b : Bool) → (b || true) ≡ true
      or_true true = refl
      or_true false = refl

  -- A poll of a capture, by the over-capture.
  polled :
      (v : ℕ) (t : State)
      → is_captured t ≡ true
      → laws.value t ≡ v
      → is_overcaptured t ≡ false
      → ((latest_capture hardware t).1 ≡ ok (some v)) × IsClear (latest_capture hardware t).0
  unfolding latest_capture
  polled v t c e o =
      let (read, clear, over) = laws.read_value_lem t in
      let kept = over ∙ o in (rw (c, kept, read, e) refl, (rw (c, kept) clear, rw (c, kept) kept))

  polled_over :
      (v : ℕ) (t : State)
      → is_captured t ≡ true
      → laws.value t ≡ v
      → is_overcaptured t ≡ true
      → ((latest_capture hardware t).1 ≡ err (some v)) × IsClear (latest_capture hardware t).0
  unfolding latest_capture
  polled_over v t c e o =
      let (read, clear, over) = laws.read_value_lem t in
      let kept = over ∙ o in
      let (same, none_over) = laws.clear_lem (hardware.read_value t).0 in
      (rw (c, kept, read, e) refl, (rw (c, kept) (same ∙ clear), rw (c, kept) none_over))

  -- Over status registers with their documented behaviour, once nothing waits, and after any
  -- captures: a poll gives nothing if there was none, the value if there was one, and an error
  -- with the last value if there were more, and then nothing waits.
  pub latest_capture-IsClear :
      (vs : List ℕ) (s : State)
      → IsClear s
      → ((latest_capture hardware (captured vs s)).1 ≡ expected vs)
        × IsClear (latest_capture hardware (captured vs s)).0
  unfolding latest_capture
  latest_capture-IsClear [] s (c, o) = (rw c refl, (rw c c, rw c o))
  latest_capture-IsClear (v ∷ []) s (c, o) =
      polled v (laws.capture v s) (laws.is_captured-capture v s) (laws.value-capture v s)
        (laws.is_overcaptured-capture v s ∙ rw (o, c) refl)
  latest_capture-IsClear (v ∷ w ∷ vs) s h =
      polled_over v (captured (v ∷ w ∷ vs) s) (laws.is_captured-capture v _)
        (laws.value-capture v _) (overcaptured v w vs s)
