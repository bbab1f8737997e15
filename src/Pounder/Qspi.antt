-- ===== src/Pounder/Qspi.antt =====
-- src/hardware/pounder/mod.rs, `QspiInterface`: the QSPI link to the DDS. The QSPI peripheral driver
-- is a parameter.
pub mod Encoding
pub mod Access
pub mod Tests
use stabilizer.Prelude.{
  ℕ, zero, suc, ◌+◌, ◌*◌, ◌-◌, ◌/◌, ◌%◌, ◌^◌, ltb, ◌==◌, if◌then◌else◌, Bool, true, false, List, [],
  ◌∷◌, length, get_or, set, take, drop, replicate, test_bit, bit_or,
}
use stabilizer.Prelude.Effects.{Action, pure, fail, map_err, ◌>>=◌, ◌>>◌}
use stabilizer.Ad9959.{
  Mode, single_bit_two_wire, single_bit_three_wire, two_bit_serial, four_bit_serial,
}

-- The peripheral driver of the HAL, with its own state and errors. `begin_stream` stands for the
-- direct register accesses of `start_stream`.
pub record QspiDriver : Type 1 where
  pub State : Type 0
  pub Fault : Type 0
  pub configure_four_bit : Action State Fault (Unit {0})
  pub is_busy : Action State Fault (Unit {0})
  pub begin_stream : State → State
  pub write : ℕ → List ℕ → Action State Fault (Unit {0})
  pub read : ℕ → ℕ → Action State Fault (List ℕ)

-- `pounder::Error`.
pub data Error (Fault : Type 0) : Type 0 where
  spi i2c bounds invalid_address invalid_channel adc invalid_state : Error Fault
  qspi : Fault → Error Fault

-- `if byte & (1 << bit) != 0 { buffer[position] |= 1 << offset }`: odd bits go to the upper nibble,
-- and the most significant bits to the first of the four bytes at `base`.
encode_bit : ℕ → ℕ → ℕ → List ℕ → List ℕ
encode_bit base byte bit buffer =
    let offset = if bit % 2 == 0 then 0 else 4 in
    let position = base + (3 - bit / 2) in
    let old = get_or buffer position 0 in
    set buffer position (if test_bit byte bit then bit_or old (2 ^ offset) else old)

-- `for bit in 0..8`, with the rounds that are left.
encode_bits : ℕ → ℕ → ℕ → ℕ → List ℕ → List ℕ
encode_bits zero bit base byte buffer = buffer
encode_bits (suc left) bit base byte buffer =
    encode_bits left (bit + 1) base byte (encode_bit base byte bit buffer)

encode_bytes : ℕ → List ℕ → List ℕ → List ℕ
encode_bytes index [] buffer = buffer
encode_bytes index (byte ∷ bytes) buffer =
    encode_bytes (index + 1) bytes (encode_bits 8 0 ((index + 1) * 4) byte buffer)

-- The address, then the bytes, in the 12 bytes of `encoded_data`.
unfoldable pub encode_single_bit : ℕ → List ℕ → List ℕ
unfolding encode_bit encode_bits encode_bytes
encode_single_bit addr bytes = encode_bytes 0 bytes (encode_bits 8 0 0 addr (replicate 12 0))

module _ (driver : QspiDriver) where
  open driver use {State, Fault}

  pub record QspiInterface : Type 0 where
    pub peripheral : State
    pub mode : Mode
    pub streaming : Bool

  -- The interface, or the error and the peripheral that is left.
  unfoldable pub new : Action State (Error Fault) QspiInterface
  new = do
    map_err qspi driver.configure_four_bit
    λ p. pure (record { peripheral = p; mode = single_bit_two_wire; streaming = false }) p

  -- A call of the peripheral driver, with `?`.
  abbrev on_peripheral : {A : Type 0} → Action State Fault A → Action QspiInterface (Error Fault) A
  on_peripheral call s =
      let (p, r) = map_err qspi call s.peripheral in (record s { peripheral = p }, r)

  unfoldable pub start_stream : Action QspiInterface (Error Fault) (Unit {0})
  start_stream = do
    on_peripheral driver.is_busy
    λ s. pure tt (record s { peripheral = driver.begin_stream s.peripheral; streaming = true })

  unfoldable pub configure_mode : Mode → Action QspiInterface (Error Fault) (Unit {0})
  configure_mode mode s = pure tt (record s { mode = mode })

  write_in_mode : Mode → ℕ → List ℕ → Action QspiInterface (Error Fault) (Unit {0})
  write_in_mode single_bit_two_wire addr bytes s =
      let encoded = encode_single_bit addr bytes in
      if ltb 8 (length bytes * 4)
      then fail bounds s
      else on_peripheral
          (driver.write (get_or encoded 0 0) (take ((length bytes + 1) * 4 - 1) (drop 1 encoded))) s
  write_in_mode four_bit_serial addr bytes s =
      if s.streaming then fail invalid_state s else on_peripheral (driver.write addr bytes) s
  write_in_mode _ addr bytes s = fail invalid_state s

  unfoldable pub write : ℕ → List ℕ → Action QspiInterface (Error Fault) (Unit {0})
  unfolding write_in_mode
  write addr bytes s =
      if test_bit addr 7 then fail invalid_address s else write_in_mode s.mode addr bytes s

  abbrev is_four_bit : Mode → Bool
  is_four_bit four_bit_serial = true
  is_four_bit _ = false

  -- `len` is the length of `dest`; the bytes read are the result.
  unfoldable pub read : ℕ → ℕ → Action QspiInterface (Error Fault) (List ℕ)
  read addr len s =
      if test_bit addr 7
      then fail invalid_address s
      else if is_four_bit s.mode
      then on_peripheral (driver.read (bit_or 0x80 addr) len) s
      else fail invalid_state s
