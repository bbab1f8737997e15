-- ===== src/Ad9959/Serializer/Words.antt =====
-- The words of a profile hold its bytes, least significant first.
use stabilizer.Prelude.{
  ℕ, true, zero, suc, ◌+◌, ◌*◌, ◌/◌, ◌≡◌, ◌<◌, refl, arith, ap₂, List, [], ◌∷◌, ◌++◌, Option, some,
  none, length, bit_or, u8, be16, be32, le32, ltb, ltb→lt,
}
use stabilizer.Prelude.Tables.{holds_below, holds_below_lem}
use stabilizer.Ad9959.{Register, address, Mode, mode_bits, single_bit_two_wire}
use stabilizer.Ad9959.Serializer.{cast_words, be24}
use stabilizer.Ad9959.Serializer.Device.{Write, encode}
use stabilizer.Ad9959.Serializer.Layout.{write?, update_writes, encode-append}
use stabilizer.Ad9959.Serializer.Padding.{padding}

abbrev pub AreBytes : List ℕ → Type 0
AreBytes [] = Unit
AreBytes (b ∷ bytes) = (b < 256) × AreBytes bytes

pub AreBytes-append : (xs ys : List ℕ) → AreBytes xs → AreBytes ys → AreBytes (xs ++ ys)
AreBytes-append [] ys h k = k
AreBytes-append (x ∷ xs) ys h k = (h.0, AreBytes-append xs ys h.1 k)

-- What a word-wise write sends.
abbrev pub words_bytes : List ℕ → List ℕ
words_bytes [] = []
words_bytes (w ∷ ws) = le32 w ++ words_bytes ws

le32-word :
    (a b c d : ℕ)
    → a < 256
    → b < 256
    → c < 256
    → d < 256
    → le32 (a + b * 256 + c * 65536 + d * 16777216) ≡ a ∷ b ∷ c ∷ d ∷ []
le32-word a b c d ha hb hc hd =
    let x = a + b * 256 + c * 65536 + d * 16777216 in
    let e0 : u8 x ≡ a = omega arith in
    let e1 : u8 (x / 256) ≡ b = omega arith in
    let e2 : u8 (x / 65536) ≡ c = omega arith in
    let e3 : u8 (x / 16777216) ≡ d = omega arith in
    ap₂ ◌∷◌ e0 (ap₂ ◌∷◌ e1 (ap₂ ◌∷◌ e2 (ap₂ ◌∷◌ e3 refl)))

-- Whole words of bytes are cast, and the cast loses nothing.
pub cast_words_lem :
    (k : ℕ) (bytes : List ℕ)
    → length bytes ≡ k * 4
    → AreBytes bytes
    → (words : List ℕ) × (cast_words bytes ≡ some words) × (words_bytes words ≡ bytes)
unfolding cast_words
cast_words_lem k [] l h = ([], refl, refl)
cast_words_lem k (a ∷ []) l h = absurd (omega arith)
cast_words_lem k (a ∷ b ∷ []) l h = absurd (omega arith)
cast_words_lem k (a ∷ b ∷ c ∷ []) l h = absurd (omega arith)
cast_words_lem zero (a ∷ b ∷ c ∷ d ∷ bytes) l h = absurd (omega arith)
cast_words_lem (suc k) (a ∷ b ∷ c ∷ d ∷ bytes) l h =
    let (words, e, back) = cast_words_lem k bytes (omega arith) h.1.1.1.1 in
    (
      (a + b * 256 + c * 65536 + d * 16777216) ∷ words,
      rw e refl,
      ap₂ ◌++◌ (le32-word a b c d h.0 h.1.0 h.1.1.0 h.1.1.1.0) back,
    )

-- A `u8` of flags joined with a mode is a `u8`.
select_table : (m : Mode) → holds_below 256 (λ c. ltb (bit_or (u8 (mode_bits m)) c) 256) ≡ true
unfolding holds_below
select_table single_bit_two_wire = refl
select_table _ = refl

select-lt : (m : Mode) (channels : ℕ) → channels < 256 → bit_or (u8 (mode_bits m)) channels < 256
select-lt m channels h =
    ltb→lt _ _
      (holds_below_lem 256 (λ c. ltb (bit_or (u8 (mode_bits m)) c) 256) (select_table m) channels h)

write?-AreBytes :
    (r : Register) (bytes : ℕ → List ℕ) (word : Option ℕ)
    → address r < 256
    → ((n : ℕ) → AreBytes (bytes n))
    → AreBytes (encode (write? r bytes word))
write?-AreBytes r bytes none hr h = tt
write?-AreBytes r bytes (some word) hr h = (hr, AreBytes-append (bytes word) [] (h word) tt)

pub AreBytes-encode-append :
    (ws vs : List Write)
    → AreBytes (encode ws)
    → AreBytes (encode vs)
    → AreBytes (encode (ws ++ vs))
AreBytes-encode-append ws vs h k = rw encode-append (AreBytes-append (encode ws) (encode vs) h k)

pub update_writes-AreBytes :
    (m : Mode) (channels : ℕ) (ftw phase acr : Option ℕ)
    → channels < 256
    → AreBytes (encode (update_writes (mode_bits m) channels ftw phase acr))
update_writes-AreBytes m channels ftw phase acr h = (
  omega arith,
  (
    select-lt m channels h,
    AreBytes-encode-append (write? Register.cftw0 be32 ftw) _
        (write?-AreBytes Register.cftw0 be32 ftw (omega arith) (λ n. omega arith))
        (AreBytes-encode-append (write? Register.cpow0 be16 phase) _
          (write?-AreBytes Register.cpow0 be16 phase (omega arith) (λ n. omega arith))
          (write?-AreBytes Register.acr be24 acr (omega arith) (λ n. omega arith))),
  ),
)

pub padding-AreBytes : (mode k : ℕ) → AreBytes (encode (padding mode k))
padding-AreBytes mode zero = tt
padding-AreBytes mode (suc zero) = omega arith
padding-AreBytes mode (suc (suc zero)) = omega arith
padding-AreBytes mode (suc (suc (suc k))) = omega arith
