-- ===== src/Ad9959/Serializer/Effect.antt =====
-- What `finalize` hands over, and what an update does to a DDS.
use stabilizer.Prelude.{
  ℕ, zero, suc, ◌+◌, ◌*◌, ◌/◌, ◌%◌, ◌≡◌, ◌≤◌, ◌<◌, refl, arith, List, [], ◌∷◌, ◌++◌, Option, some,
  none, length, take, take-append, be16, be32,
}
use stabilizer.Ad9959.{Register, Mode, mode_bits}
use stabilizer.Ad9959.Serializer.{ProfileSerializer, be24, finalize}
use stabilizer.Ad9959.Serializer.Device.{width, Write, encode, Fits}
use stabilizer.Ad9959.Serializer.Layout.{IsLaidOut, write?, update_writes, length-encode-append}
use stabilizer.Ad9959.Serializer.Padding.{padding, pad-Lays}
use stabilizer.Ad9959.Serializer.Words.{
  AreBytes, words_bytes, cast_words_lem, update_writes-AreBytes, padding-AreBytes,
  AreBytes-encode-append,
}

-- The length of a layout of `n` bytes with its padding.
abbrev pub padded : ℕ → ℕ
padded n = n + length (encode (padding 0 (n % 4)))

length-padding : (mode k : ℕ) → length (encode (padding mode k)) ≡ length (encode (padding 0 k))
length-padding mode zero = refl
length-padding mode (suc zero) = refl
length-padding mode (suc (suc zero)) = refl
length-padding mode (suc (suc (suc k))) = refl

-- A padded layout is a whole number of words.
padded_words : (n k : ℕ) → n % 4 ≡ k → (q : ℕ) × (n + length (encode (padding 0 k)) ≡ q * 4)
padded_words n zero h = (n / 4, omega arith)
padded_words n (suc zero) h = (n / 4 + 1, omega arith)
padded_words n (suc (suc zero)) h = (n / 4 + 1, omega arith)
padded_words n (suc (suc (suc zero))) h = (n / 4 + 2, omega arith)
padded_words n (suc (suc (suc (suc k)))) h = absurd (omega arith)

-- The bytes that are laid out.
taken :
    {mode : ℕ} {ws : List Write} {s : ProfileSerializer}
    → IsLaidOut mode ws s
    → take s.index s.data_bytes ≡ encode ws
taken {ws = ws} h = rw (h.laid_out, h.index_at_end) (take-append (encode ws) h.room)

-- With room for its padding a profile is handed over, as the bytes of its writes and the padding.
pub finalize_lem :
    {mode : ℕ} (ws : List Write) {s : ProfileSerializer}
    → IsLaidOut mode ws s
    → padded (length (encode ws)) ≤ 32
    → AreBytes (encode ws)
    → (t : ProfileSerializer) × (words : List ℕ) × (finalize s ≡ some (t, words))
      × (words_bytes words ≡ encode (ws ++ padding mode (length (encode ws) % 4)))
unfolding finalize
finalize_lem {mode} ws {s} h fits bytes =
    let k = length (encode ws) % 4 in
    let vs = ws ++ padding mode k in
    let (t, e, g) = pad-Lays ws h (omega (arith, length-padding mode k)) in
    let (q, whole) = padded_words (length (encode ws)) k refl in
    let (words, cast, back) =
      cast_words_lem q (encode vs)
        (omega (arith, whole, length-padding mode k, length-encode-append ws (padding mode k)))
        (AreBytes-encode-append ws (padding mode k) bytes (padding-AreBytes mode k)) in
    (t, words, rw (e, taken g, cast) refl, back)

-- The arguments of one call of `update_channels`.
pub record Update : Type 0 where
  pub channels : ℕ
  pub ftw : Option ℕ
  pub pow : Option ℕ
  pub acr : Option ℕ

abbrev pub writes_of : ℕ → List Update → List Write
writes_of mode [] = []
writes_of mode (u ∷ us) = update_writes mode u.channels u.ftw u.pow u.acr ++ writes_of mode us

abbrev pub AreFlags : List Update → Type 0
AreFlags [] = Unit
AreFlags (u ∷ us) = (u.channels < 256) × AreFlags us

pub writes_of-AreBytes :
    (m : Mode) (us : List Update) → AreFlags us → AreBytes (encode (writes_of (mode_bits m) us))
writes_of-AreBytes m [] h = tt
writes_of-AreBytes m (u ∷ us) h =
    AreBytes-encode-append (update_writes (mode_bits m) u.channels u.ftw u.pow u.acr) _
      (update_writes-AreBytes m u.channels u.ftw u.pow u.acr h.0) (writes_of-AreBytes m us h.1)

pub Fits-append : (ws vs : List Write) → Fits ws → Fits vs → Fits (ws ++ vs)
Fits-append [] vs h k = k
Fits-append (w ∷ ws) vs h k = (h.0, Fits-append ws vs h.1 k)

write?-Fits :
    (r : Register) (bytes : ℕ → List ℕ) (word : Option ℕ)
    → ((n : ℕ) → length (bytes n) ≡ width r)
    → Fits (write? r bytes word)
write?-Fits r bytes none h = tt
write?-Fits r bytes (some word) h = (h word, tt)

update_writes-Fits :
    (mode channels : ℕ) (ftw phase acr : Option ℕ)
    → Fits (update_writes mode channels ftw phase acr)
update_writes-Fits mode channels ftw phase acr = (
  refl,
  Fits-append (write? Register.cftw0 be32 ftw) _ (write?-Fits Register.cftw0 be32 ftw (λ n. refl)) (
      Fits-append (write? Register.cpow0 be16 phase) _
        (write?-Fits Register.cpow0 be16 phase (λ n. refl))
        (write?-Fits Register.acr be24 acr (λ n. refl))),
)

pub writes_of-Fits : (mode : ℕ) (us : List Update) → Fits (writes_of mode us)
writes_of-Fits mode [] = tt
writes_of-Fits mode (u ∷ us) =
    Fits-append (update_writes mode u.channels u.ftw u.pow u.acr) _
      (update_writes-Fits mode u.channels u.ftw u.pow u.acr) (writes_of-Fits mode us)

pub padding-Fits : (mode k : ℕ) → Fits (padding mode k)
padding-Fits mode zero = tt
padding-Fits mode (suc zero) = omega arith
padding-Fits mode (suc (suc zero)) = omega arith
padding-Fits mode (suc (suc (suc k))) = omega arith
