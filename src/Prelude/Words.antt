-- ===== src/Prelude/Words.antt =====
-- Machine words as native numbers below a power of two. Conversions, byte order, and the two's
-- complement reading of a bit pattern.
use Prim.Native.Nat.{ℕ, ◌+◌, ◌*◌, ◌/◌, ◌%◌, ◌^◌, bit_and}
use mathlib.Core.Bool.{Bool, not}
use mathlib.Core.List.{List, [], ◌∷◌}
use stabilizer.Prelude.Tests.{◌==◌}
use stabilizer.Prelude.Lists.{get_or}

-- `x as u8`, `x as u16`, `x as u32`.
abbrev pub u8 : ℕ → ℕ
u8 n = n % 256

abbrev pub u16 : ℕ → ℕ
u16 n = n % 65536

abbrev pub u32 : ℕ → ℕ
u32 n = n % 4294967296

-- The bytes of `x.to_be_bytes()` and `x.to_le_bytes()`.
abbrev pub be16 : ℕ → List ℕ
be16 n = u8 (n / 256) ∷ u8 n ∷ []

abbrev pub be32 : ℕ → List ℕ
be32 n = u8 (n / 16777216) ∷ u8 (n / 65536) ∷ u8 (n / 256) ∷ u8 n ∷ []

abbrev pub le16 : ℕ → List ℕ
le16 n = u8 n ∷ u8 (n / 256) ∷ []

abbrev pub le32 : ℕ → List ℕ
le32 n = u8 n ∷ u8 (n / 256) ∷ u8 (n / 65536) ∷ u8 (n / 16777216) ∷ []

-- `byte & (1 << k) != 0`.
abbrev pub test_bit : ℕ → ℕ → Bool
test_bit x k = not (bit_and x (2 ^ k) == 0)

-- `u16::from_be_bytes` and `u32::from_be_bytes`.
abbrev pub from_be16 : List ℕ → ℕ
from_be16 l = get_or l 0 0 * 256 + get_or l 1 0

abbrev pub from_be32 : List ℕ → ℕ
from_be32 l = get_or l 0 0 * 16777216 + get_or l 1 0 * 65536 + get_or l 2 0 * 256 + get_or l 3 0
