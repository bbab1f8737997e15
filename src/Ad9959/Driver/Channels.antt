-- ===== src/Ad9959/Driver/Channels.antt =====
-- ad9959/src/lib.rs, `Ad9959`: the self test, and the words of the single channels.
use stabilizer.Prelude.{
  ℕ, ◌*◌, ltb, ◌==◌, if◌then◌else◌, Bool, true, false, not, ◌&&◌, ◌||◌, List, [], ◌∷◌, get_or, be16,
  be32, from_be16, from_be32, bit_or, bit_and,
}
use stabilizer.Prelude.Effects.{Action, pure, fail, ◌>>=◌, ◌>>◌}
use stabilizer.Prelude.Floats.{Floats, as_u16, as_u32}
use stabilizer.Ad9959.{mode_bits, Register, Error}
use stabilizer.Ad9959.Driver.{Board, BitFields, Ad9959, write, read, system_clock_frequency}

module _ (floats : Floats) (bits : BitFields) (board : Board) where
  open floats use {Float, from_nat, times, over, less, at_most}

  abbrev Step : Type 0 → Type 0
  Step A = Action (Ad9959 floats bits board) Error A

  -- `csr[0].get_bits(4..8) != enables` after a read of the CSR.
  abbrev read_enables : Step ℕ
  read_enables = do csr ← read floats bits board Register.csr 1; pure (get_or csr 0 0)

  -- `csr[0].set_bits(4..8, enables)`, a write, and the CSR that reads back.
  abbrev try_enables : ℕ → ℕ → Step ℕ
  try_enables enables csr = do
    write floats bits board Register.csr (bits.set_bits csr 4 8 enables ∷ [])
    read_enables

  -- `return Ok(false)` unless the enables read back as written.
  abbrev expect_enables : ℕ → ℕ → Step Bool → Step Bool
  expect_enables enables csr next_steps =
      if not (bits.get_bits csr 4 8 == enables) then pure false else next_steps

  abbrev restore : ℕ → Step Bool
  restore old = do write floats bits board Register.csr (old ∷ []); pure true

  abbrev try_none : ℕ → ℕ → Step Bool
  try_none old csr = do csr ← try_enables 0 csr; expect_enables 0 csr (restore old)

  unfoldable pub self_test : Step Bool
  self_test = do
    old ← read_enables
    csr ← try_enables 0xF old
    expect_enables 0xF csr (try_none old csr)

  unfoldable pub modify_channel : ℕ → Register → List ℕ → Step (Unit {0})
  modify_channel channel reg bytes d =
      (do
        write floats bits board Register.csr (bit_or (mode_bits d.communication_mode) channel ∷ [])
        write floats bits board reg bytes)
        d

  unfoldable pub read_channel : ℕ → Register → ℕ → Step (List ℕ)
  read_channel channel reg len d =
      (do
        csr ← read floats bits board Register.csr 1
        write floats bits board Register.csr (bit_or (mode_bits d.communication_mode) channel ∷ [])
        bytes ← read floats bits board reg len
        write floats bits board Register.csr csr
        pure bytes)
        d

  abbrev pub phase_turns : ℕ → Float
  phase_turns word = over (from_nat word) (from_nat 16384)

  abbrev pub phase_offset : Float → ℕ
  phase_offset turns = bit_and (as_u16 floats (times turns (from_nat 16384))) 0x3FFF

  unfoldable pub set_phase : ℕ → Float → Step Float
  set_phase channel turns =
      let word = phase_offset turns in
      do modify_channel channel Register.cpow0 (be16 word); pure (phase_turns word)

  unfoldable pub get_phase : ℕ → Step Float
  get_phase channel = do
    bytes ← read_channel channel Register.cpow0 2
    pure (phase_turns (bit_and (from_be16 bytes) 0x3FFF))

  abbrev pub amplitude_control : Float → ℕ
  amplitude_control amplitude = as_u16 floats (times amplitude (from_nat 1024))

  -- The bytes of the ACR; the multiplier of the amplitude is enabled by bit 4 of the second.
  abbrev pub amplitude_bytes : ℕ → List ℕ
  amplitude_bytes control =
      let masked = be16 (bit_and control 0x3FF) in
      if ltb control 1024
      then 0 ∷ bits.set_bit (get_or masked 0 0) 4 true ∷ get_or masked 1 0 ∷ []
      else 0 ∷ 0 ∷ 0 ∷ []

  abbrev pub amplitude_of : ℕ → Float
  amplitude_of control = over (from_nat control) (from_nat 1024)

  unfoldable pub set_amplitude : ℕ → Float → Step Float
  set_amplitude channel amplitude =
      if not (at_most (from_nat 0) amplitude && at_most amplitude (from_nat 1))
      then fail Error.bounds
      else let control = amplitude_control amplitude in
        do
          modify_channel channel Register.acr (amplitude_bytes control)
          pure (amplitude_of control)

  -- `((acr[1] as u16) << 8) | (acr[2] as u16)`.
  abbrev pub amplitude_word : List ℕ → ℕ
  amplitude_word acr = bit_and (bit_or (get_or acr 1 0 * 256) (get_or acr 2 0)) 0x3FF

  abbrev pub decoded : List ℕ → Float
  decoded acr =
      if bits.get_bit (get_or acr 1 0) 4 then amplitude_of (amplitude_word acr) else from_nat 1

  unfoldable pub get_amplitude : ℕ → Step Float
  get_amplitude channel = do acr ← read_channel channel Register.acr 3; pure (decoded acr)

  abbrev pub tuning_word : Float → Ad9959 floats bits board → ℕ
  tuning_word frequency d =
      as_u32 floats
        (times (over frequency (system_clock_frequency floats bits board d)) (from_nat 4294967296))

  unfoldable pub set_frequency : ℕ → Float → Step Float
  set_frequency channel frequency d =
      if less frequency (from_nat 0) || less (system_clock_frequency floats bits board d) frequency
      then fail Error.bounds d
      else let word = tuning_word frequency d in
        (do
          modify_channel channel Register.cftw0 (be32 word)
          λ d.
              let clock = system_clock_frequency floats bits board d in
              pure (times (over (from_nat word) (from_nat 4294967296)) clock) d)
          d

  unfoldable pub get_frequency : ℕ → Step Float
  get_frequency channel = do
    bytes ← read_channel channel Register.cftw0 4
    λ d.
        let clock = system_clock_frequency floats bits board d in
        pure (over (times (from_nat (from_be32 bytes)) clock) (from_nat 4294967296)) d
