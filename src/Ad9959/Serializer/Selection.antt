-- ===== src/Ad9959/Serializer/Selection.antt =====
-- What an update of channels does to the words that a DDS holds.
use stabilizer.Prelude.{
  ℕ, Bool, true, zero, suc, ◌≡◌, ◌<◌, refl, arith, ap, List, ◌++◌, Option, some, none, bit_or, u8,
  be16, be32, ◌==◌, if◌then◌else◌, ◌∙◌,
}
use stabilizer.Prelude.Tables.{holds_below, holds_below_lem}
use stabilizer.Ad9959.{Mode, mode_bits, single_bit_two_wire}
use stabilizer.Ad9959.Serializer.{be24}
use stabilizer.Ad9959.Serializer.Device.{Dds, accept, accept_all, accept_all-append, is_selected}
use stabilizer.Ad9959.Serializer.Layout.{update_writes}
use stabilizer.Ad9959.Serializer.Padding.{padding}
use stabilizer.Ad9959.Serializer.Effect.{Update}

-- Padding leaves every frequency, phase and amplitude alone.
pub padding-accept_all :
    (mode k : ℕ) (d : Dds)
    → let e = accept_all (padding mode k) d in
      (e.frequency ≡ d.frequency) × (e.phase ≡ d.phase) × (e.amplitude ≡ d.amplitude)
unfolding accept
padding-accept_all mode zero d = (refl, refl, refl)
padding-accept_all mode (suc zero) d = (refl, refl, refl)
padding-accept_all mode (suc (suc zero)) d = (refl, refl, refl)
padding-accept_all mode (suc (suc (suc k))) d = (refl, refl, refl)

-- The mode occupies the low bits, so the channels that are selected are those of the flags.
same_bit : ℕ → ℕ → ℕ → Bool
same_bit mode c flags =
    (if is_selected (bit_or (u8 mode) flags) c then 1 else 0)
    == (if is_selected flags c then 1 else 0)

flags_table : (m : Mode) (c : ℕ) → c < 4 → holds_below 256 (same_bit (mode_bits m) c) ≡ true
unfolding holds_below same_bit
flags_table single_bit_two_wire zero h = refl
flags_table single_bit_two_wire (suc zero) h = refl
flags_table single_bit_two_wire (suc (suc zero)) h = refl
flags_table single_bit_two_wire (suc (suc (suc zero))) h = refl
flags_table m (suc (suc (suc (suc c)))) h = absurd (omega arith)
flags_table _ _ h = refl

selected_flags :
    (m : Mode) (c flags : ℕ)
    → c < 4
    → flags < 256
    → is_selected (bit_or (u8 (mode_bits m)) flags) c ≡ is_selected flags c
unfolding same_bit
selected_flags m c flags hc h =
    ground (arith, holds_below_lem 256 (same_bit (mode_bits m) c) (flags_table m c hc) flags h)

-- The word that a channel holds after an update of it.
abbrev pub updated : Bool → (ℕ → List ℕ) → Option ℕ → List ℕ → List ℕ
updated selected bytes none old = old
updated selected bytes (some word) old = if selected then bytes word else old

accept_update_words :
    (mode channels : ℕ) (ftw phase acr : Option ℕ) (d : Dds) (c : ℕ)
    → let e = accept_all (update_writes mode channels ftw phase acr) d in
      let selected = is_selected (bit_or (u8 mode) channels) c in
      (e.frequency c ≡ updated selected be32 ftw (d.frequency c))
      × (e.phase c ≡ updated selected be16 phase (d.phase c))
      × (e.amplitude c ≡ updated selected be24 acr (d.amplitude c))
unfolding accept
accept_update_words mode channels none none none d c = (refl, refl, refl)
accept_update_words mode channels none none (some a) d c = (refl, refl, refl)
accept_update_words mode channels none (some p) none d c = (refl, refl, refl)
accept_update_words mode channels none (some p) (some a) d c = (refl, refl, refl)
accept_update_words mode channels (some f) none none d c = (refl, refl, refl)
accept_update_words mode channels (some f) none (some a) d c = (refl, refl, refl)
accept_update_words mode channels (some f) (some p) none d c = (refl, refl, refl)
accept_update_words mode channels (some f) (some p) (some a) d c = (refl, refl, refl)

-- An update and its padding set exactly the given words of exactly the flagged channels.
pub accept_update :
    (m : Mode) (u : Update) (k : ℕ) (d : Dds) (c : ℕ)
    → c < 4
    → u.channels < 256
    → let e =
        accept_all
          (update_writes (mode_bits m) u.channels u.ftw u.pow u.acr ++ padding (mode_bits m) k)
          d in
      let selected = is_selected u.channels c in
      (e.frequency c ≡ updated selected be32 u.ftw (d.frequency c))
      × (e.phase c ≡ updated selected be16 u.pow (d.phase c))
      × (e.amplitude c ≡ updated selected be24 u.acr (d.amplitude c))
accept_update m u k d c hc h =
    let mode = mode_bits m in
    let ws = update_writes mode u.channels u.ftw u.pow u.acr in
    let (f, p, a) = padding-accept_all mode k (accept_all ws d) in
    let (f', p', a') = accept_update_words mode u.channels u.ftw u.pow u.acr d c in
    let flags = selected_flags m c u.channels hc h in
    rw (accept_all-append ws (padding mode k) d) (
      ap (λ g. g c) f ∙ f' ∙ ap (λ b. updated b be32 u.ftw (d.frequency c)) flags,
      ap (λ g. g c) p ∙ p' ∙ ap (λ b. updated b be16 u.pow (d.phase c)) flags,
      ap (λ g. g c) a ∙ a' ∙ ap (λ b. updated b be24 u.acr (d.amplitude c)) flags,
    )
