-- ===== src/Hardware/Eeprom/Agreement.antt =====
-- Two reads in a row agree on the address that is returned.
use stabilizer.Prelude.{
  ℕ, zero, suc, ◌≡◌, inl, inr, Bool, true, Bool-cases, ◌==◌, ==_iff, ◌&&◌, refl, arith, ap, ap₂,
  subst, ◌∙◌, List, [], ◌∷◌, Option, none, some,
}
use mathlib.Core.Option.{some-injective, none-ne-some}
use stabilizer.Prelude.Results.{Result, ok, err}
use stabilizer.Hardware.Eeprom.{
  Bus, same_bytes, Attempt, agreed, keep, compared, attempt, read_loop, read_eui48,
}

and_true : (a b : Bool) → (a && b) ≡ true → (a ≡ true) × (b ≡ true)
and_true a b h = (ground arith, ground arith)

same_bytes_lem : (xs ys : List ℕ) → same_bytes xs ys ≡ true → xs ≡ ys
unfolding same_bytes
same_bytes_lem [] [] h = refl
same_bytes_lem (x ∷ xs) (y ∷ ys) h =
    let (first, rest) = and_true (x == y) (same_bytes xs ys) h in
    ap₂ (λ (a : ℕ) (l : List ℕ). a ∷ l) ((==_iff x y).0 first) (same_bytes_lem xs ys rest)
same_bytes_lem [] (y ∷ ys) h = absurd (ground arith)
same_bytes_lem (x ∷ xs) [] h = absurd (ground arith)

same_itself : (xs : List ℕ) → same_bytes xs xs ≡ true
unfolding same_bytes
same_itself [] = refl
same_itself (x ∷ xs) = ground (arith, same_itself xs)

module _ (bus : Bus) where
  open bus use {State, Fault}

  -- The read in state `u` gave the bytes, and so did the read after the delay.
  abbrev pub Agree : List ℕ → State → Type 0
  Agree bytes t =
      (u v : State) × (bus.read u ≡ (v, ok bytes)) × (bus.read (bus.delay_ms 100 v) ≡ (t, ok bytes))

  -- The read before the state `s` gave what the loop remembers.
  abbrev Remembered : Option (List ℕ) → State → Type 0
  Remembered none s = Unit {0}
  Remembered (some old) s = (u v : State) × (bus.read u ≡ (v, ok old)) × (bus.delay_ms 100 v ≡ s)

  -- What an attempt means for the state after its read.
  abbrev Means : Attempt bus → State → State → Type 0
  Means (agreed bytes) s t = Agree bytes t
  Means (keep previous) s t = Remembered previous (bus.delay_ms 100 t)

  compared-Means :
      (bytes : List ℕ) (previous : Option (List ℕ)) (s t : State)
      → bus.read s ≡ (t, ok bytes)
      → Remembered previous s
      → Means (compared bus bytes previous) s t
  unfolding compared
  compared-Means bytes none s t e r = (s, t, e, refl)
  compared-Means bytes (some old) s t e (u, v, e0, at) = elim (Bool-cases (same_bytes old bytes)) [
    | inl same ↦
        let equal = same_bytes_lem old bytes same in
        rw same (u, v, e0 ∙ ap (λ (l : List ℕ). (v, ok l)) equal, ap bus.read at ∙ e)
    | inr other ↦ rw other (s, t, e, refl)
  ]

  attempt-Means :
      (r : Result Fault (List ℕ)) (previous : Option (List ℕ)) (s t : State)
      → bus.read s ≡ (t, r)
      → Remembered previous s
      → Means (attempt bus r previous) s t
  unfolding attempt
  attempt-Means (ok bytes) previous s t e r = compared-Means bytes previous s t e r
  attempt-Means (err x) previous s t e r = tt

  -- The result of a round, given what the rest of the loop does.
  round-Agree :
      (left : ℕ) (a : Attempt bus) (s t u : State) (bytes : List ℕ)
      → Means a s t
      → ((previous : Option (List ℕ))
          → Remembered previous (bus.delay_ms 100 t)
          → read_loop bus left previous (bus.delay_ms 100 t) ≡ some (u, bytes)
          → Agree bytes u)
      → ◌≡◌ {A = Option (State × List ℕ)}
          (elim a [
            | agreed found ↦ some (t, found)
            | keep previous ↦ read_loop bus left previous (bus.delay_ms 100 t)
          ])
          (some (u, bytes))
      → Agree bytes u
  round-Agree left (agreed found) s t u bytes means rest h =
      let e = some-injective (t, found) (u, bytes) h in
      subst (λ (r : State × List ℕ). Agree r.1 r.0) e means
  round-Agree left (keep previous) s t u bytes means rest h = rest previous means h

  read_loop-Agree :
      (left : ℕ) (previous : Option (List ℕ)) (s u : State) (bytes : List ℕ)
      → Remembered previous s
      → read_loop bus left previous s ≡ some (u, bytes)
      → Agree bytes u
  unfolding read_loop
  read_loop-Agree zero previous s u bytes r h = absurd (none-ne-some _ h)
  read_loop-Agree (suc left) previous s u bytes r h =
      let t = (bus.read s).0 in
      let result = (bus.read s).1 in
      round-Agree left (attempt bus result previous) s t u bytes
        (attempt-Means result previous s t refl r)
        (λ next_previous. read_loop-Agree left next_previous (bus.delay_ms 100 t) u bytes) h

  -- For every bus: an address that read_eui48 returns was read twice in a row, with the delay
  -- between the reads.
  pub read_eui48-Agree :
      (s u : State) (bytes : List ℕ) → read_eui48 bus s ≡ some (u, bytes) → Agree bytes u
  unfolding read_eui48
  read_eui48-Agree s u bytes h = read_loop-Agree 40 none s u bytes tt h

  -- Each read gives the bytes.
  abbrev pub Answers : List ℕ → Type 0
  Answers bytes = (s : State) → (t : State) × (bus.read s ≡ (t, ok bytes))

  -- What the loop does after the read of a round.
  abbrev after : ℕ → Attempt bus → State → Option (State × List ℕ)
  after left a t = elim a [
    | agreed found ↦ some (t, found)
    | keep previous ↦ read_loop bus left previous (bus.delay_ms 100 t)
  ]

  loop_step :
      (left : ℕ) (previous : Option (List ℕ)) (s t : State) (r : Result Fault (List ℕ))
      → bus.read s ≡ (t, r)
      → read_loop bus (suc left) previous s ≡ after left (attempt bus r previous) t
  unfolding read_loop
  loop_step left previous s t r e =
      ap (λ (x : State × Result Fault (List ℕ)). after left (attempt bus x.1 previous) x.0) e

  compared-same : (bytes : List ℕ) → compared bus bytes (some bytes) ≡ agreed bytes
  unfolding compared
  compared-same bytes = rw (same_itself bytes) refl

  last_round :
      (left : ℕ) (bytes : List ℕ) (s : State)
      → Answers bytes
      → (u : State) × (read_loop bus (suc left) (some bytes) s ≡ some (u, bytes))
  unfolding attempt
  last_round left bytes s answers =
      let (t, e) = answers s in
      (
        t,
        loop_step left (some bytes) s t (ok bytes) e
            ∙ ap (λ a. after left a t) (compared-same bytes),
      )

  answered :
      (left : ℕ) (bytes : List ℕ) (previous : Option (List ℕ)) (t : State)
      → Answers bytes
      → (u : State) × (after (suc left) (compared bus bytes previous) t ≡ some (u, bytes))
  unfolding compared
  answered left bytes none t answers = last_round left bytes (bus.delay_ms 100 t) answers
  answered left bytes (some old) t answers = elim (Bool-cases (same_bytes old bytes)) [
    | inl same ↦ (t, rw same refl)
    | inr other ↦ rw other (last_round left bytes (bus.delay_ms 100 t) answers)
  ]

  -- Once every read of the bus gives the same bytes: the loop with at least two rounds left
  -- returns them, whatever was read before.
  pub read_loop-Answers :
      (left : ℕ) (bytes : List ℕ) (previous : Option (List ℕ)) (s : State)
      → Answers bytes
      → (u : State) × (read_loop bus (suc (suc left)) previous s ≡ some (u, bytes))
  unfolding attempt
  read_loop-Answers left bytes previous s answers =
      let (t, e) = answers s in
      let (u, done) = answered left bytes previous t answers in
      (u, loop_step (suc left) previous s t (ok bytes) e ∙ done)
