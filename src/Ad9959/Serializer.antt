-- ===== src/Ad9959/Serializer.antt =====
-- ad9959/src/lib.rs, `ProfileSerializer`: register writes are laid out in a buffer of 32 bytes and
-- handed over as words. `none` is the panic of a slice that is out of range.
pub mod Device
pub mod Layout
pub mod Padding
pub mod Words
pub mod Effect
pub mod Selection
use stabilizer.Prelude.{
  ℕ, ◌+◌, ◌*◌, ◌%◌, ◌/◌, ◌==◌, if◌then◌else◌, not, bit_or, List, [], ◌∷◌, Option, none, some,
  length, take, replicate, overwrite, be16, be32, u8,
}
use stabilizer.Prelude.Results.{◌>>=◌}
use mathlib.Core.Option
use stabilizer.Ad9959.{Mode, mode_bits, Register, address}

pub record ProfileSerializer : Type 0 where
  pub data_bytes : List ℕ
  pub index : ℕ
  pub mode : ℕ

unfoldable pub new : Mode → ProfileSerializer
new mode = record { data_bytes = replicate 32 0; index = 0; mode = mode_bits mode }

unfoldable pub add_write : Register → List ℕ → ProfileSerializer → Option ProfileSerializer
add_write register value s = do
  bytes ← overwrite s.data_bytes s.index (address register ∷ value)
  some (record s { data_bytes = bytes; index = s.index + (length value + 1) })

-- `if let Some(word) = word { self.add_write(register, bytes(word)) }`.
unfoldable pub add_write? :
    Register → (ℕ → List ℕ) → Option ℕ → ProfileSerializer → Option ProfileSerializer
add_write? register bytes none s = some s
add_write? register bytes (some word) s = add_write register (bytes word) s

-- `&acr.to_be_bytes()[1..]`.
abbrev pub be24 : ℕ → List ℕ
be24 n = u8 (n / 65536) ∷ u8 (n / 256) ∷ u8 n ∷ []

unfoldable pub update_channels :
    ℕ → Option ℕ → Option ℕ → Option ℕ → ProfileSerializer → Option ProfileSerializer
update_channels channels ftw phase acr s = do
  s ← add_write Register.csr (bit_or (u8 s.mode) channels ∷ []) s
  s ← add_write? Register.cftw0 be32 ftw s
  s ← add_write? Register.cpow0 be16 phase s
  add_write? Register.acr be24 acr s

-- `index & 1` and `index & 2` are the two lowest binary digits of the index.
unfoldable pub pad : ProfileSerializer → Option ProfileSerializer
pad s = do
  s ← if s.index % 2 == 0 then some s else add_write Register.lsrr (0 ∷ 0 ∷ []) s
  if s.index / 2 % 2 == 0 then some s else add_write Register.csr (u8 s.mode ∷ []) s

-- `bytemuck::cast_slice` to little-endian words: a length that is no multiple of four panics.
unfoldable pub cast_words : List ℕ → Option (List ℕ)
cast_words [] = some []
cast_words (a ∷ []) = none
cast_words (a ∷ b ∷ []) = none
cast_words (a ∷ b ∷ c ∷ []) = none
cast_words (a ∷ b ∷ c ∷ d ∷ bytes) =
    Option.map (◌∷◌ (a + b * 256 + c * 65536 + d * 16777216)) (cast_words bytes)

-- The serializer that is left, and the words.
unfoldable pub finalize : ProfileSerializer → Option (ProfileSerializer × List ℕ)
finalize s = do s ← pad s; words ← cast_words (take s.index s.data_bytes); some (s, words)
