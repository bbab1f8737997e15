-- ===== src/Ad9959/Driver.antt =====
-- ad9959/src/lib.rs, `Ad9959`: the register accesses of the driver. The pins, the delay and the
-- interface to the chip act on one board, which is a parameter, as are `f32` and the bit fields of
-- the crate bit_field.
pub mod Channels
pub mod Chip
pub mod Access
pub mod Modified
pub mod RoundTrip
pub mod Clock
pub mod Multiplier
pub mod Tests
use stabilizer.Prelude.{
  ℕ, ◌+◌, ◌*◌, ◌/◌, ltb, leb, ◌==◌, if◌then◌else◌, Bool, true, false, not, ◌&&◌, ◌||◌, List, [],
  ◌∷◌, get_or, set, u8, be16, be32, from_be16, from_be32, bit_or, bit_and,
}
use stabilizer.Prelude.Results.{Result}
use stabilizer.Prelude.Effects.{Action, pure, fail, map_err, ◌>>=◌, ◌>>◌}
use stabilizer.Prelude.Floats.{Floats, as_u16, as_u32}
use stabilizer.Ad9959.{Mode, mode_bits, Register, address, Error, single_bit_two_wire}
use stabilizer.Ad9959.Channel.{all}

-- `read` takes the length of the slice that it fills.
pub record Board : Type 1 where
  pub State : Type 0
  pub Fault : Type 0
  pub configure_mode : Mode → Action State Fault (Unit {0})
  pub write : ℕ → List ℕ → Action State Fault (Unit {0})
  pub read : ℕ → ℕ → Action State Fault (List ℕ)
  pub set_reset_pin : Bool → Action State Fault (Unit {0})
  pub set_io_update : Bool → Action State Fault (Unit {0})
  pub delay_us : ℕ → State → State

-- `get_bits(low..high)`, `set_bits(low..high, value)`, `get_bit(bit)`, `set_bit(bit, value)` of a
-- byte.
pub record BitFields : Type 0 where
  pub get_bits : ℕ → ℕ → ℕ → ℕ
  pub set_bits : ℕ → ℕ → ℕ → ℕ → ℕ
  pub get_bit : ℕ → ℕ → Bool
  pub set_bit : ℕ → ℕ → Bool → ℕ

module _ (floats : Floats) (bits : BitFields) (board : Board) where
  open floats use {Float, from_nat, times, over, less, at_most}
  open board use {State, Fault}

  pub record Ad9959 : Type 0 where
    pub interface : State
    pub reference_clock_frequency : Float
    pub system_clock_multiplier : ℕ
    pub communication_mode : Mode

  abbrev Step : Type 0 → Type 0
  Step A = Action Ad9959 Error A

  -- `call.or(Err(e))?`.
  abbrev pub on_board : {A : Type 0} → Error → Action State Fault A → Step A
  on_board e call d =
      let (b, r) = map_err (λ _. e) call d.interface in (record d { interface = b }, r)

  unfoldable pub write : Register → List ℕ → Step (Unit {0})
  write reg bytes = on_board Error.interface (board.write (address reg) bytes)

  unfoldable pub read : Register → ℕ → Step (List ℕ)
  read reg len = on_board Error.interface (board.read (address reg) len)

  abbrev pub system_clock_frequency : Ad9959 → Float
  system_clock_frequency d = times (from_nat d.system_clock_multiplier) d.reference_clock_frequency

  abbrev pub is_multiplier : ℕ → Bool
  is_multiplier m = (m == 1) || (leb 4 m && leb m 20)

  -- The clock bits of the first byte of FR1.
  abbrev pub clock_bits : ℕ → Bool → List ℕ → List ℕ
  clock_bits multiplier vco_range fr1 =
      let byte = bits.set_bits (get_or fr1 0 0) 2 7 multiplier in
      set fr1 0 (bits.set_bit byte 7 vco_range)

  write_clock : ℕ → Bool → Step Float
  unfolding write read
  write_clock multiplier vco_range = do
    fr1 ← read Register.fr1 3
    write Register.fr1 (clock_bits multiplier vco_range fr1)
    λ d.
        let d = record d { system_clock_multiplier = multiplier } in
        pure (system_clock_frequency d) d

  unfoldable pub configure_system_clock : Float → ℕ → Step Float
  unfolding write_clock
  configure_system_clock reference multiplier d =
      let d = record d { reference_clock_frequency = reference } in
      let frequency = times (from_nat multiplier) reference in
      if not (is_multiplier multiplier)
      then fail Error.bounds d
      else if less (from_nat 500000000) frequency
      then fail Error.frequency d
      else write_clock multiplier (less (from_nat 255000000) frequency) d

  unfoldable pub get_reference_clock_multiplier : Step ℕ
  unfolding read
  get_reference_clock_multiplier = do
    fr1 ← read Register.fr1 3
    pure (bits.get_bits (get_or fr1 0 0) 2 7)

  wait : Step (Unit {0})
  wait d = pure tt (record d { interface = board.delay_us 5 d.interface })

  -- `Err(Error::Check)` unless the register reads back as written.
  check_csr : ℕ → Step (Unit {0})
  unfolding read
  check_csr written = do
    csr ← read Register.csr 1
    if get_or csr 0 0 == written then pure tt else fail Error.check

  -- `io_update` is raised for 5 µs.
  latch : Step (Unit {0})
  unfolding wait
  latch = do
    on_board Error.pin (board.set_io_update true)
    wait
    on_board Error.pin (board.set_io_update false)

  -- `new`, until the mode of the interface is checked.
  bring_up : Mode → Step (Unit {0})
  unfolding wait write latch check_csr
  bring_up mode = do
    on_board Error.pin (board.set_io_update false)
    on_board Error.pin (board.set_reset_pin true)
    wait
    on_board Error.pin (board.set_reset_pin false)
    on_board Error.interface (board.configure_mode single_bit_two_wire)
    write Register.csr (bit_or all (mode_bits mode) ∷ [])
    latch
    on_board Error.interface (board.configure_mode mode)
    wait
    check_csr (bit_or all (mode_bits mode))

  initialize : Mode → Float → ℕ → Step (Unit {0})
  unfolding bring_up latch configure_system_clock
  initialize mode clock_frequency multiplier = do
    bring_up mode
    frequency ← configure_system_clock clock_frequency multiplier
    latch

  -- The driver with its result; after an error the driver is dropped.
  unfoldable pub new : State → Mode → Float → ℕ → Ad9959 × Result Error (Unit {0})
  unfolding initialize
  new interface mode clock_frequency multiplier =
      initialize mode clock_frequency multiplier (record {
        interface = interface;
        reference_clock_frequency = clock_frequency;
        system_clock_multiplier = 1;
        communication_mode = mode;
      })
