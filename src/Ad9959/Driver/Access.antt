-- ===== src/Ad9959/Driver/Access.antt =====
-- The accesses of the channels, and the self test, on a board where the chip answers.
use stabilizer.Prelude.{
  ℕ, ◌+◌, ◌-◌, ◌^◌, ◌≡◌, ◌<◌, ◌==◌, ◌&&◌, not, if◌then◌else◌, Bool, true, false, List, [], ◌∷◌, ◌≢◌,
  refl, arith, ap, ◌∙◌, bit_or,
}
use stabilizer.Prelude.Tables.{holds_below, holds_below_lem}
use stabilizer.Prelude.Floats.{Floats}
use stabilizer.Ad9959.{
  Mode, mode_bits, Register, single_bit_two_wire, single_bit_three_wire, two_bit_serial,
  four_bit_serial,
}
use stabilizer.Ad9959.Serializer.Device.{accept, width, is_selected}
use stabilizer.Ad9959.Driver.{Board, BitFields}
use stabilizer.Ad9959.Driver.Channels.{self_test, modify_channel, read_channel}
use stabilizer.Ad9959.Driver.Chip.{
  Registers, store, stored, selected_channel, IsRead, Chip, Driver, Runs, write-Runs, read-Runs,
}

-- The flag of channel `c`.
abbrev pub flag : ℕ → ℕ
flag c = 2 ^ (4 + c)

-- The CSR that the driver writes to reach channel `c` alone.
abbrev pub select_only : Mode → ℕ → ℕ
select_only mode c = bit_or (mode_bits mode) (flag c)

abbrev selects_only : Mode → ℕ → ℕ → Bool
selects_only mode c k =
    if c == k
    then is_selected (select_only mode c) k && (selected_channel (select_only mode c) == c)
    else not (is_selected (select_only mode c) k)

select_table : (mode : Mode) → holds_below 4 (λ c. holds_below 4 (selects_only mode c)) ≡ true
unfolding holds_below
select_table single_bit_two_wire = refl
select_table single_bit_three_wire = refl
select_table two_bit_serial = refl
select_table four_bit_serial = refl

selects_only_lem : (mode : Mode) (c k : ℕ) → c < 4 → k < 4 → selects_only mode c k ≡ true
selects_only_lem mode c k hc hk =
    holds_below_lem 4 (selects_only mode c)
      (holds_below_lem 4 (λ c. holds_below 4 (selects_only mode c)) (select_table mode) c hc) k hk

pub selected : (mode : Mode) (c : ℕ) → c < 4 → selected_channel (select_only mode c) ≡ c
selected mode c h = ground (arith, selects_only_lem mode c c h h)

pub is_selected-same : (mode : Mode) (c : ℕ) → c < 4 → is_selected (select_only mode c) c ≡ true
is_selected-same mode c h = ground (arith, selects_only_lem mode c c h h)

pub is_selected-other :
    (mode : Mode) (c k : ℕ) → c < 4 → k < 4 → c ≢ k → is_selected (select_only mode c) k ≡ false
is_selected-other mode c k hc hk ne = ground (arith, selects_only_lem mode c k hc hk)

-- `get_bits` of a range gives what `set_bits` put there, in a byte again.
abbrev pub IsField : BitFields → ℕ → ℕ → Type 0
IsField bits low high =
    (x v : ℕ)
    → x < 256
    → v < 2 ^ (high - low)
    → (bits.get_bits (bits.set_bits x low high v) low high ≡ v) × (bits.set_bits x low high v < 256)

module _ (floats : Floats) (bits : BitFields) (board : Board) (chip : Chip board) where
  open board use {State}

  abbrev pub registers : Driver floats bits board chip → Registers
  registers d = chip.view d.interface

  -- The driver on another state of the board.
  abbrev pub moved : Driver floats bits board chip → State → Driver floats bits board chip
  moved d b = record d { interface = b }

  pub modify_channel-Runs :
      (channel : ℕ) (reg : Register) (bytes : List ℕ) (d : Driver floats bits board chip)
      → Runs floats bits board chip (modify_channel floats bits board channel reg bytes) d tt (
          store reg bytes (
            store Register.csr
              (bit_or (mode_bits d.communication_mode) channel ∷ [])
              (registers d)))
  unfolding modify_channel
  modify_channel-Runs channel reg bytes d =
      let csr = bit_or (mode_bits d.communication_mode) channel ∷ [] in
      let (b, e, v) = write-Runs floats bits board chip Register.csr csr d in
      let (b2, e2, v2) = write-Runs floats bits board chip reg bytes (moved d b) in
      (b2, rw (e, e2) refl, v2 ∙ ap (store reg bytes) v)

  -- A read of one channel gives its word, and leaves every register as it was.
  pub read_channel-Runs :
      (c : ℕ) (reg : Register) (d : Driver floats bits board chip)
      → c < 4
      → IsRead reg
      → Runs floats bits board chip
          (read_channel floats bits board (flag c) reg (width reg))
          d
          (stored reg (store Register.csr (select_only d.communication_mode c ∷ []) (registers d)))
          (registers d)
  unfolding read_channel store accept stored
  read_channel-Runs c reg d hc h =
      let csr = select_only d.communication_mode c ∷ [] in
      let (b, e, v) = read-Runs floats bits board chip Register.csr d tt in
      let (b2, e2, v2) = write-Runs floats bits board chip Register.csr csr (moved d b) in
      let (b3, e3, v3) = read-Runs floats bits board chip reg (moved d b2) h in
      let (b4, e4, v4) =
        write-Runs floats bits board chip Register.csr ((registers d).dds.select ∷ [])
          (moved d b3) in
      let old = (registers d).dds.select ∷ [] in
      let changed = v2 ∙ ap (store Register.csr csr) v in
      (b4, rw (e, e2, e3, e4, changed) refl, v4 ∙ ap (store Register.csr old) (v3 ∙ changed))

  -- On a board where the chip answers, for bit fields whose bits 4 to 7 read as set, and a CSR
  -- that is a byte: the self test gives true and leaves the driver and every register of the chip
  -- as they were.
  pub self_test-Runs :
      (d : Driver floats bits board chip)
      → IsField bits 4 8
      → (registers d).dds.select < 256
      → Runs floats bits board chip (self_test floats bits board) d true (registers d)
  unfolding self_test store accept stored
  self_test-Runs d field byte =
      let old = (registers d).dds.select in
      let (got_all, all_byte) = field old 0xF byte (omega arith) in
      let all_set = bits.set_bits old 4 8 0xF in
      let (got_none, _) = field all_set 0 all_byte (omega arith) in
      let none_set = bits.set_bits all_set 4 8 0 in
      let (b, e, v) = read-Runs floats bits board chip Register.csr d tt in
      let (b2, e2, v2) =
        write-Runs floats bits board chip Register.csr (all_set ∷ []) (moved d b) in
      let (b3, e3, v3) = read-Runs floats bits board chip Register.csr (moved d b2) tt in
      let (b4, e4, v4) =
        write-Runs floats bits board chip Register.csr (none_set ∷ []) (moved d b3) in
      let (b5, e5, v5) = read-Runs floats bits board chip Register.csr (moved d b4) tt in
      let (b6, e6, v6) = write-Runs floats bits board chip Register.csr (old ∷ []) (moved d b5) in
      let on = v3 ∙ v2 ∙ ap (store Register.csr (all_set ∷ [])) v in
      let off = v4 ∙ ap (store Register.csr (none_set ∷ [])) on in
      (
        b6,
        rw (e, e2, e3, v2, got_all, e4, e5, v4, got_none, e6) refl,
        v6 ∙ ap (store Register.csr (old ∷ [])) (v5 ∙ off),
      )
