-- ===== src/Pounder/Qspi/Encoding.antt =====
-- The single-bit encoding: what the four data lines carry.
use stabilizer.Prelude.{
  ℕ, ◌+◌, ◌*◌, ◌/◌, ◌%◌, ◌^◌, ◌≡◌, ◌≤◌, ◌<◌, refl, arith, ap, ap₂, ◌∙◌, Bool, true, List, [], ◌∷◌,
  ◌++◌, length, ◌==◌, ◌&&◌, if◌then◌else◌, test_bit, bit_or, take,
}
use stabilizer.Prelude.Tables.{holds_below, holds_below_lem}
use stabilizer.Pounder.Qspi.{encode_single_bit}

-- In four-bit mode a byte is two transfers of four lines, upper nibble first.
abbrev pub nibbles : List ℕ → List ℕ
nibbles [] = []
nibbles (b ∷ bytes) = b / 16 ∷ b % 16 ∷ nibbles bytes

-- The bits of bytes one by one, the most significant first.
abbrev pub serial_bits : List ℕ → List ℕ
serial_bits [] = []
serial_bits (b ∷ bytes) =
    b / 128 % 2
    ∷ b / 64 % 2
    ∷ b / 32 % 2
    ∷ b / 16 % 2
    ∷ b / 8 % 2
    ∷ b / 4 % 2
    ∷ b / 2 % 2
    ∷ b % 2
    ∷ serial_bits bytes

-- The byte that carries bits `j + 1` and `j`.
pair_byte : ℕ → ℕ → ℕ
pair_byte byte j =
    let low = if test_bit byte j then bit_or 0 (2 ^ 0) else 0 in
    if test_bit byte (j + 1) then bit_or low (2 ^ 4) else low

pair_holds : ℕ → ℕ → Bool
pair_holds j byte =
    (pair_byte byte j / 16 == byte / 2 ^ (j + 1) % 2) && (pair_byte byte j % 16 == byte / 2 ^ j % 2)

pairs_table :
    holds_below 256 (λ b. pair_holds 0 b && (pair_holds 2 b && (pair_holds 4 b && pair_holds 6 b)))
    ≡ true
unfolding holds_below pair_holds pair_byte
pairs_table = refl

encoded_byte : ℕ → List ℕ
encoded_byte byte = pair_byte byte 6 ∷ pair_byte byte 4 ∷ pair_byte byte 2 ∷ pair_byte byte 0 ∷ []

pair_lem :
    (j byte : ℕ)
    → pair_holds j byte ≡ true
    → (pair_byte byte j / 16 ≡ byte / 2 ^ (j + 1) % 2) × (pair_byte byte j % 16 ≡ byte / 2 ^ j % 2)
unfolding pair_holds
pair_lem j byte h = ground arith

pairs :
    (byte : ℕ)
    → byte < 256
    → (pair_holds 0 byte ≡ true)
      × (pair_holds 2 byte ≡ true)
      × (pair_holds 4 byte ≡ true)
      × (pair_holds 6 byte ≡ true)
pairs byte h =
    and_four (pair_holds 0 byte) (pair_holds 2 byte) (pair_holds 4 byte) (pair_holds 6 byte)
      (holds_below_lem 256 _ pairs_table byte h)
  where
    and_four :
        (a b c d : Bool)
        → (a && (b && (c && d))) ≡ true
        → (a ≡ true) × (b ≡ true) × (c ≡ true) × (d ≡ true)
    and_four a b c d e = ground arith

nibbles-encoded_byte :
    (byte : ℕ) (rest : List ℕ)
    → byte < 256
    → nibbles (encoded_byte byte ++ rest) ≡ serial_bits (byte ∷ []) ++ nibbles rest
unfolding encoded_byte
nibbles-encoded_byte byte rest h =
    let (p0, p2, p4, p6) = pairs byte h in
    let (a1, a0) = pair_lem 0 byte p0 in
    let (a3, a2) = pair_lem 2 byte p2 in
    let (a5, a4) = pair_lem 4 byte p4 in
    let (a7, a6) = pair_lem 6 byte p6 in
    let last : byte / 1 % 2 ≡ byte % 2 = omega arith in
    ap₂ ◌∷◌ a7 (
      ap₂ ◌∷◌ a6
        (ap₂ ◌∷◌ a5 (ap₂ ◌∷◌ a4 (ap₂ ◌∷◌ a3 (ap₂ ◌∷◌ a2 (ap₂ ◌∷◌ a1 (ap₂ ◌∷◌ (a0 ∙ last) refl)))))))

three_bytes :
    (addr a b : ℕ)
    → (encode_single_bit addr [] ≡ encoded_byte addr ++ (0 ∷ 0 ∷ 0 ∷ 0 ∷ 0 ∷ 0 ∷ 0 ∷ 0 ∷ []))
      × (encode_single_bit addr (a ∷ [])
          ≡ encoded_byte addr ++ (encoded_byte a ++ (0 ∷ 0 ∷ 0 ∷ 0 ∷ [])))
      × (encode_single_bit addr (a ∷ b ∷ [])
          ≡ encoded_byte addr ++ (encoded_byte a ++ (encoded_byte b)))
unfolding encode_single_bit encoded_byte pair_byte
three_bytes addr a b = (refl, refl, refl)

abbrev pub AllBytes : List ℕ → Type 0
AllBytes [] = Unit
AllBytes (b ∷ bytes) = (b < 256) × AllBytes bytes

-- For a payload of at most two bytes the lines carry, transfer by transfer, the address and the
-- payload bit by bit on the first line, and nothing on the other three.
pub nibbles-encode_single_bit :
    (addr : ℕ) (bytes : List ℕ)
    → addr < 256
    → AllBytes bytes
    → length bytes ≤ 2
    → nibbles (take ((length bytes + 1) * 4) (encode_single_bit addr bytes))
      ≡ serial_bits (addr ∷ bytes)
unfolding encoded_byte
nibbles-encode_single_bit addr [] ha h fits =
    rw (three_bytes addr 0 0).0 (nibbles-encoded_byte addr [] ha)
nibbles-encode_single_bit addr (a ∷ []) ha h fits = rw (three_bytes addr a 0).1 (
    nibbles-encoded_byte addr (encoded_byte a) ha
    ∙ ap (λ (l : List ℕ). serial_bits (addr ∷ []) ++ l) (nibbles-encoded_byte a [] h.0))
nibbles-encode_single_bit addr (a ∷ b ∷ []) ha h fits = rw (three_bytes addr a b).2 (
    nibbles-encoded_byte addr (encoded_byte a ++ encoded_byte b) ha
    ∙ ap (λ (l : List ℕ). serial_bits (addr ∷ []) ++ l)
        (nibbles-encoded_byte a (encoded_byte b) h.0
          ∙ ap (λ (l : List ℕ). serial_bits (a ∷ []) ++ l) (nibbles-encoded_byte b [] h.1.0)))
nibbles-encode_single_bit addr (a ∷ b ∷ c ∷ bytes) ha h fits = absurd (omega arith)
