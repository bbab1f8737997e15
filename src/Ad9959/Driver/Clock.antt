-- ===== src/Ad9959/Driver/Clock.antt =====
-- The system clock: what a configured driver has checked, and what reads back.
use stabilizer.Prelude.{
  ℕ, ◌≡◌, Bool, true, false, List, [], ◌∷◌, refl, arith, ap, sym, subst, ◌∙◌, bit_or, get_or,
  if◌then◌else◌, not, ◌==◌,
}
use stabilizer.Prelude.Results.{Result, ok, err}
use stabilizer.Prelude.Effects.{Action, continue, ◌>>=◌, ◌>>◌}
use stabilizer.Prelude.Floats.{Floats}
use stabilizer.Ad9959.{Mode, single_bit_two_wire, mode_bits, Register, Error}
use stabilizer.Ad9959.Channel.{all}
use stabilizer.Ad9959.Driver.{
  Board, BitFields, Ad9959, on_board, write, read, configure_system_clock, is_multiplier,
  clock_bits, new, wait, latch, check_csr, bring_up, initialize, write_clock,
}

-- A chain that succeeds is two steps that succeed.
module _ {S E A B : Type 0} (f : A → Action S E B) (t : S) (b : B) where
  abbrev Split : S × Result E A → Type 0
  Split r = (u : S) × (a : A) × (r ≡ (u, ok a)) × (f a u ≡ (t, ok b))

  split : (r : S × Result E A) → continue r f ≡ (t, ok b) → Split r
  split (u, ok a) h = (u, a, refl, h)
  split (u, err x) h = absurd (ground arith)

module _ (floats : Floats) (bits : BitFields) (board : Board) where
  open floats use {Float, from_nat, times, less}
  open board use {State, Fault}

  abbrev Step : Type 0 → Type 0
  Step A = Action (Ad9959 floats bits board) Error A

  -- The fields of the driver besides the board.
  abbrev Same : Ad9959 floats bits board → Ad9959 floats bits board → Type 0
  Same d t =
      (t.reference_clock_frequency ≡ d.reference_clock_frequency)
      × (t.system_clock_multiplier ≡ d.system_clock_multiplier)
      × (t.communication_mode ≡ d.communication_mode)

  -- A step that changes no field but the board.
  abbrev KeepsFields : {A : Type 0} → Step A → Type 0
  KeepsFields step = (d : Ad9959 floats bits board) → Same d (step d).0

  Same-trans : (d t u : Ad9959 floats bits board) → Same d t → Same t u → Same d u
  Same-trans d t u (a, b, c) (x, y, z) = (x ∙ a, y ∙ b, z ∙ c)

  on_board-KeepsFields :
      {A : Type 0} (e : Error) (call : Action State Fault A)
      → KeepsFields (on_board floats bits board e call)
  on_board-KeepsFields e call d = (refl, refl, refl)

  continue-Same :
      {A B : Type 0} (f : A → Step B) (d : Ad9959 floats bits board)
      (r : Ad9959 floats bits board × Result Error A)
      → Same d r.0
      → ((a : A) → KeepsFields (f a))
      → Same d (continue r f).0
  continue-Same f d (u, ok a) same rest = Same-trans d u (f a u).0 same (rest a u)
  continue-Same f d (u, err e) same rest = same

  bind-KeepsFields :
      {A B : Type 0} (step : Step A) (f : A → Step B)
      → KeepsFields step
      → ((a : A) → KeepsFields (f a))
      → KeepsFields (step >>= f)
  bind-KeepsFields step f first rest d = continue-Same f d (step d) (first d) rest

  wait-KeepsFields : KeepsFields (wait floats bits board)
  unfolding wait
  wait-KeepsFields d = (refl, refl, refl)

  -- A step with the proof that it changes no field but the board.
  abbrev Kept : Type 0
  Kept = (step : Step (Unit {0})) × KeepsFields step

  then_kept : (first rest : Kept) → Kept
  then_kept (a, ha) (b, hb) = (a >> b, bind-KeepsFields a (λ _. b) ha (λ _. hb))

  on_board_kept : Error → Action State Fault (Unit {0}) → Kept
  on_board_kept e call = (on_board floats bits board e call, on_board-KeepsFields e call)

  wait_kept : Kept
  wait_kept = (wait floats bits board, wait-KeepsFields)

  latch_kept : Kept
  unfolding latch then_kept on_board_kept wait_kept
  latch_kept = (
    latch floats bits board,
    (then_kept (on_board_kept Error.pin (board.set_io_update true))
        (then_kept wait_kept (on_board_kept Error.pin (board.set_io_update false)))).1,
  )

  verdict-KeepsFields :
      (same : Bool)
      → KeepsFields {A = Unit {0}} (if same then (λ d. (d, ok tt)) else (λ d. (d, err Error.check)))
  verdict-KeepsFields true d = (refl, refl, refl)
  verdict-KeepsFields false d = (refl, refl, refl)

  check_csr_kept : ℕ → Kept
  unfolding check_csr read
  check_csr_kept written = (
    check_csr floats bits board written,
    bind-KeepsFields (read floats bits board Register.csr 1)
        (λ csr.
          if get_or csr 0 0 == written then (λ d. (d, ok tt)) else (λ d. (d, err Error.check)))
        (λ d. (refl, refl, refl)) (λ csr. verdict-KeepsFields (get_or csr 0 0 == written)),
  )

  bring_up-KeepsFields : (mode : Mode) → KeepsFields (bring_up floats bits board mode)
  unfolding bring_up write then_kept on_board_kept wait_kept latch_kept check_csr_kept
  bring_up-KeepsFields mode =
      let csr = bit_or all (mode_bits mode) in
      (then_kept (on_board_kept Error.pin (board.set_io_update false)) (
        then_kept (on_board_kept Error.pin (board.set_reset_pin true)) (
          then_kept wait_kept (
            then_kept (on_board_kept Error.pin (board.set_reset_pin false)) (
              then_kept (on_board_kept Error.interface (board.configure_mode single_bit_two_wire)) (
                then_kept (on_board_kept Error.interface (board.write 0 (csr ∷ []))) (
                  then_kept latch_kept (
                    then_kept (on_board_kept Error.interface (board.configure_mode mode))
                      (then_kept wait_kept (check_csr_kept csr)))))))))).1

  -- The fields that a configured clock leaves.
  abbrev Clocked : Float → ℕ → Ad9959 floats bits board → Ad9959 floats bits board → Type 0
  Clocked reference m d t =
      (t.reference_clock_frequency ≡ reference)
      × (t.system_clock_multiplier ≡ m)
      × (t.communication_mode ≡ d.communication_mode)

  step-Same :
      {A : Type 0} (step : Step A) (d u : Ad9959 floats bits board) (r : Result Error A)
      → KeepsFields step
      → step d ≡ (u, r)
      → Same d u
  step-Same step d u r keeps e =
      subst (λ (x : Ad9959 floats bits board × Result Error _). Same d x.0) e (keeps d)

  read-KeepsFields : (reg : Register) (len : ℕ) → KeepsFields (read floats bits board reg len)
  unfolding read
  read-KeepsFields reg len d = (refl, refl, refl)

  write-KeepsFields :
      (reg : Register) (bytes : List ℕ) → KeepsFields (write floats bits board reg bytes)
  unfolding write
  write-KeepsFields reg bytes d = (refl, refl, refl)

  write_clock-ok :
      (m : ℕ) (vco_range : Bool) (d t : Ad9959 floats bits board) (x : Float)
      → write_clock floats bits board m vco_range d ≡ (t, ok x)
      → Clocked d.reference_clock_frequency m d t
  unfolding write_clock
  write_clock-ok m vco_range d t x h =
      let (d1, fr1, e1, h1) = split _ t x (read floats bits board Register.fr1 3 d) h in
      let bytes = clock_bits floats bits board m vco_range fr1 in
      let (d2, u, e2, h2) = split _ t x (write floats bits board Register.fr1 bytes d1) h1 in
      let (same_reference, _, same_mode) =
        Same-trans d d1 d2
          (step-Same (read floats bits board Register.fr1 3) d d1 (ok fr1)
            (read-KeepsFields Register.fr1 3) e1)
          (step-Same (write floats bits board Register.fr1 bytes) d1 d2 (ok u)
            (write-KeepsFields Register.fr1 bytes) e2) in
      let last : record d2 { system_clock_multiplier = m } ≡ t = ap (λ p. p.0) h2 in
      (
        ap (λ s. s.reference_clock_frequency) (sym last) ∙ same_reference,
        ap (λ s. s.system_clock_multiplier) (sym last),
        ap (λ s. s.communication_mode) (sym last) ∙ same_mode,
      )

  -- The multiplier and the frequency of the system clock are within the limits of the chip.
  abbrev pub IsAllowed : Float → ℕ → Type 0
  IsAllowed reference m =
      (is_multiplier floats bits board m ≡ true)
      × (less (from_nat 500000000) (times (from_nat m) reference) ≡ false)

  passed_guards :
      (allowed fast : Bool) (d t : Ad9959 floats bits board) (next_steps : Step Float) (x : Float)
      → (if not allowed
          then (d, err Error.bounds)
          else if fast
          then (d, err Error.frequency)
          else next_steps d)
        ≡ (t, ok x)
      → (allowed ≡ true) × (fast ≡ false) × (next_steps d ≡ (t, ok x))
  passed_guards false fast d t next_steps x h = absurd (ground arith)
  passed_guards true true d t next_steps x h = absurd (ground arith)
  passed_guards true false d t next_steps x h = (refl, refl, h)

  configure_system_clock-ok :
      (reference : Float) (m : ℕ) (d t : Ad9959 floats bits board) (x : Float)
      → configure_system_clock floats bits board reference m d ≡ (t, ok x)
      → IsAllowed reference m × Clocked reference m d t
  unfolding configure_system_clock
  configure_system_clock-ok reference m d t x h =
      let frequency = times (from_nat m) reference in
      let vco_range = less (from_nat 255000000) frequency in
      let (allowed, slow, k) =
        passed_guards (is_multiplier floats bits board m) (less (from_nat 500000000) frequency)
          (record d { reference_clock_frequency = reference }) t
          (write_clock floats bits board m vco_range) x h in
      (
        (allowed, slow),
        write_clock-ok m vco_range (record d { reference_clock_frequency = reference }) t x k,
      )

  -- For every board: if new succeeds, then the multiplier is 1 or 4 to 20, its product with the
  -- reference clock is not above 500 MHz, and the driver has the desired mode, reference clock and
  -- multiplier.
  pub new-ok :
      (interface : State) (mode : Mode) (reference : Float) (m : ℕ) (t : Ad9959 floats bits board)
      → new floats bits board interface mode reference m ≡ (t, ok tt)
      → IsAllowed reference m
        × (t.reference_clock_frequency ≡ reference)
        × (t.system_clock_multiplier ≡ m)
        × (t.communication_mode ≡ mode)
  unfolding new initialize latch_kept
  new-ok interface mode reference m t h =
      let d : Ad9959 floats bits board = record {
        interface = interface;
        reference_clock_frequency = reference;
        system_clock_multiplier = 1;
        communication_mode = mode;
      } in
      let (d1, u, e1, h1) = split _ t tt (bring_up floats bits board mode d) h in
      let (d2, x, e2, h2) =
        split _ t tt (configure_system_clock floats bits board reference m d1) h1 in
      let (_, _, mode1) =
        step-Same (bring_up floats bits board mode) d d1 (ok u) (bring_up-KeepsFields mode) e1 in
      let (allowed, (same_reference, same_multiplier, mode2)) =
        configure_system_clock-ok reference m d1 d2 x e2 in
      let (reference3, multiplier3, mode3) =
        step-Same (latch floats bits board) d2 t (ok tt) latch_kept.1 h2 in
      (allowed, reference3 ∙ same_reference, multiplier3 ∙ same_multiplier, mode3 ∙ mode2 ∙ mode1)
