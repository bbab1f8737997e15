-- ===== src/Pounder/Qspi/Access.antt =====
-- What reaches the peripheral through the interface.
use stabilizer.Prelude.{
  ℕ, suc, ◌+◌, ◌*◌, ◌-◌, ◌≡◌, ◌≤◌, ◌<◌, refl, arith, ap, ◌∙◌, true, false, List, [], ◌∷◌, length,
  take, drop, get_or, test_bit, not,
}
use stabilizer.Prelude.Tables.{holds_below, holds_below_lem}
use stabilizer.Prelude.Results.{ok, err}
use stabilizer.Ad9959.{single_bit_two_wire, four_bit_serial}
use stabilizer.Pounder.Qspi.{
  QspiDriver, invalid_state, QspiInterface, encode_single_bit, on_peripheral, start_stream, write,
}
use stabilizer.Pounder.Qspi.Encoding.{nibbles, serial_bits, AllBytes, nibbles-encode_single_bit}

top_bit_table : holds_below 128 (λ a. not (test_bit a 7)) ≡ true
unfolding holds_below
top_bit_table = refl

top_bit_clear : (addr : ℕ) → addr < 128 → test_bit addr 7 ≡ false
top_bit_clear addr h =
    ground (arith, holds_below_lem 128 (λ a. not (test_bit a 7)) top_bit_table addr h)

first_and_rest :
    (n : ℕ) (l : List ℕ) → 0 < length l → get_or l 0 0 ∷ take n (drop 1 l) ≡ take (suc n) l
first_and_rest n [] h = absurd (omega arith)
first_and_rest n (x ∷ l) h = refl

encoded_pos :
    (addr : ℕ) (bytes : List ℕ) → length bytes ≤ 2 → 0 < length (encode_single_bit addr bytes)
unfolding encode_single_bit
encoded_pos addr [] h = omega arith
encoded_pos addr (a ∷ []) h = omega arith
encoded_pos addr (a ∷ b ∷ []) h = omega arith
encoded_pos addr (a ∷ b ∷ c ∷ bytes) h = absurd (omega arith)

module _ (driver : QspiDriver) where
  open driver use {State, Fault}

  -- The transfer that a write in single-bit mode starts.
  abbrev pub SendsBits : ℕ → List ℕ → QspiInterface driver → Type 0
  SendsBits addr bytes s =
      (first : ℕ) × (payload : List ℕ) × (write driver addr bytes s
        ≡ on_peripheral driver (driver.write first payload) s)
      × (nibbles (first ∷ payload) ≡ serial_bits (addr ∷ bytes))

  -- For a driver of the peripheral, an interface in single-bit mode, an address below 128 and at
  -- most two bytes: the write is one transfer of the peripheral, whose nibbles, upper first, are
  -- the bits of the address and the bytes from the most significant on, so the first data line
  -- carries them and the other three are low.
  pub write-SendsBits :
      (addr : ℕ) (bytes : List ℕ) (s : QspiInterface driver)
      → s.mode ≡ single_bit_two_wire
      → addr < 128
      → AllBytes bytes
      → length bytes ≤ 2
      → SendsBits addr bytes s
  unfolding write
  write-SendsBits addr bytes s mode ha hb fits =
      let encoded = encode_single_bit addr bytes in
      let n = (length bytes + 1) * 4 - 1 in
      let whole : suc n ≡ (length bytes + 1) * 4 = omega arith in
      (
        get_or encoded 0 0,
        take n (drop 1 encoded),
        ground (arith, top_bit_clear addr ha),
        ap nibbles (first_and_rest n encoded (encoded_pos addr bytes fits))
            ∙ ap (λ (k : ℕ). nibbles (take k encoded)) whole
            ∙ nibbles-encode_single_bit addr bytes (omega arith) hb fits,
      )

  started_fields :
      (s t : QspiInterface driver)
      → start_stream driver s ≡ (t, ok tt)
      → (t.streaming ≡ true) × (t.mode ≡ s.mode)
  unfolding start_stream
  started_fields s t started = ground arith

  -- If start_stream succeeded on an interface in four-bit mode, then a write to an address below
  -- 128 through the resulting interface gives the invalid-state error and changes nothing.
  pub write-start_stream :
      (addr : ℕ) (bytes : List ℕ) (s t : QspiInterface driver)
      → start_stream driver s ≡ (t, ok tt)
      → s.mode ≡ four_bit_serial
      → addr < 128
      → write driver addr bytes t ≡ (t, err invalid_state)
  unfolding write start_stream
  write-start_stream addr bytes s t started mode ha =
      ground (arith, started_fields s t started, top_bit_clear addr ha)
