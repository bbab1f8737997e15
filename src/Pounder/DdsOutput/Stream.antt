-- ===== src/Pounder/DdsOutput/Stream.antt =====
-- What the DDS receives when a profile is built and written.
use stabilizer.Prelude.{
  ℕ, zero, suc, ◌+◌, ◌%◌, ◌≡◌, ◌≤◌, ◌<◌, refl, arith, ap, List, [], ◌∷◌, ◌++◌, map, Option, none,
  some, length, be16, be32, subst, append_assoc, append-nil, sym, ◌∙◌,
}
use stabilizer.Prelude.Results.{◌>>=◌}
use stabilizer.Ad9959.{mode_bits}
use stabilizer.Ad9959.Serializer.{be24}
use stabilizer.Ad9959.Serializer.Device.{
  Write, encode, parse, parse-encode, Dds, accept_all, is_selected,
}
use stabilizer.Ad9959.Serializer.Layout.{
  IsLaidOut, update_writes, new-IsLaidOut, update_channels-Lays, length-encode-append,
}
use stabilizer.Ad9959.Serializer.Padding.{padding}
use stabilizer.Ad9959.Serializer.Words.{words_bytes}
use stabilizer.Ad9959.Serializer.Effect.{
  padded, finalize_lem, Update, writes_of, AreFlags, writes_of-AreBytes, Fits-append,
  writes_of-Fits, padding-Fits,
}
use stabilizer.Ad9959.Serializer.Selection.{updated, accept_update}
use stabilizer.Pounder.DdsOutput.{
  word, trigger, DdsOutput, ProfileBuilder, builder, update_channels, write, write_profile,
}

-- Calls of `update_channels` in a row.
unfoldable pub update_all : List Update → ProfileBuilder → Option ProfileBuilder
update_all [] b = some b
update_all (u ∷ us) b = do b ← update_channels u.channels u.ftw u.pow u.acr b; update_all us b

update_all_lem :
    (us : List Update) (ws : List Write) {mode : ℕ} (b : ProfileBuilder)
    → IsLaidOut mode ws b.serializer
    → length (encode ws) + length (encode (writes_of mode us)) ≤ 32
    → (c : ProfileBuilder) × (update_all us b ≡ some c)
      × (c.dds_output ≡ b.dds_output)
      × IsLaidOut mode (ws ++ writes_of mode us) c.serializer
unfolding update_all update_channels
update_all_lem [] ws b h fits = (b, refl, refl, rw append-nil h)
update_all_lem (u ∷ us) ws {mode} b h fits =
    let w = update_writes mode u.channels u.ftw u.pow u.acr in
    let (s, e, g) =
      update_channels-Lays u.channels u.ftw u.pow u.acr h
        (omega (arith, length-encode-append w (writes_of mode us))) in
    let (c, e', same, g') =
      update_all_lem us (ws ++ w) (record b { serializer = s }) g
        (omega (arith, length-encode-append ws w, length-encode-append w (writes_of mode us))) in
    (
      c,
      rw e e',
      same,
      subst (λ vs. IsLaidOut mode vs c.serializer) (append_assoc ws w (writes_of mode us)) g',
    )

-- The profile of these updates is written as words that the DDS reads as these writes.
abbrev pub Streams : List Update → DdsOutput → Type 0
Streams us o =
    let ws = writes_of (mode_bits o.mode) us in
    (b : ProfileBuilder) × (words : List ℕ) × ((update_all us (builder o) >>= write_profile)
      ≡ some b)
    × (b.dds_output.bus ≡ o.bus ++ (map word words ++ trigger ∷ []))
    × (parse (words_bytes words) ≡ some (ws ++ padding (mode_bits o.mode) (length (encode ws) % 4)))

-- For updates whose flags are bytes and whose register writes, with their padding, take at most 32
-- bytes: the builder takes them all and writes them without a panic, the bus gets the words and
-- then one trigger, and the bytes of the words parse, by the register widths of the DDS, to
-- exactly the writes of the updates in order followed by the padding.
pub stream-parse :
    (us : List Update) (o : DdsOutput)
    → AreFlags us
    → padded (length (encode (writes_of (mode_bits o.mode) us))) ≤ 32
    → Streams us o
unfolding builder write write_profile
stream-parse us o flags fits =
    let mode = mode_bits o.mode in
    let ws = writes_of mode us in
    let k = length (encode ws) % 4 in
    let (b, e, same, h) = update_all_lem us [] (builder o) (new-IsLaidOut o.mode) (omega arith) in
    let (t, words, e', back) = finalize_lem ws h fits (writes_of-AreBytes o.mode us flags) in
    (
      record { dds_output = write words b.dds_output; serializer = t },
      words,
      rw e (rw e' refl),
      ap (λ (d : DdsOutput). d.bus ++ (map word words ++ trigger ∷ [])) same,
      ap parse back
          ∙ parse-encode (ws ++ padding mode k)
              (Fits-append ws (padding mode k) (writes_of-Fits mode us) (padding-Fits mode k)),
    )

update_writes_short :
    (mode channels : ℕ) (ftw phase acr : Option ℕ)
    → length (encode (update_writes mode channels ftw phase acr)) ≤ 14
update_writes_short mode channels none none none = omega arith
update_writes_short mode channels none none (some a) = omega arith
update_writes_short mode channels none (some p) none = omega arith
update_writes_short mode channels none (some p) (some a) = omega arith
update_writes_short mode channels (some f) none none = omega arith
update_writes_short mode channels (some f) none (some a) = omega arith
update_writes_short mode channels (some f) (some p) none = omega arith
update_writes_short mode channels (some f) (some p) (some a) = omega arith

padded_short : (n k : ℕ) → n ≤ 14 → n + length (encode (padding 0 k)) ≤ 32
padded_short n zero h = omega arith
padded_short n (suc zero) h = omega arith
padded_short n (suc (suc zero)) h = omega arith
padded_short n (suc (suc (suc k))) h = omega arith

bind_some :
    (m : Option ProfileBuilder) → ((m >>= λ b. some b) >>= write_profile) ≡ (m >>= write_profile)
bind_some none = refl
bind_some (some b) = refl

-- The update is written, and sets its words at channel `c` of the DDS if that is flagged.
abbrev pub Sets : Update → DdsOutput → Dds → ℕ → Type 0
Sets u o d c =
    (b : ProfileBuilder) × (words : List ℕ) × (ws : List Write) × ((update_channels u.channels u.ftw
          u.pow u.acr (builder o)
        >>= write_profile)
      ≡ some b)
    × (b.dds_output.bus ≡ o.bus ++ (map word words ++ trigger ∷ []))
    × (parse (words_bytes words) ≡ some ws)
    × ((accept_all ws d).frequency c
        ≡ updated (is_selected u.channels c) be32 u.ftw (d.frequency c))
    × ((accept_all ws d).phase c ≡ updated (is_selected u.channels c) be16 u.pow (d.phase c))
    × ((accept_all ws d).amplitude c
        ≡ updated (is_selected u.channels c) be24 u.acr (d.amplitude c))

-- For an update of channels whose flags are a byte, and a channel c below 4: building and writing
-- the profile never panics, the bus gets the words and then one trigger, and a DDS that reads the
-- bytes of the words has, at channel c, the given frequency, phase and amplitude words if c is
-- flagged, and its earlier words otherwise and where no word is given (the padding changes none of
-- them).
pub stream-effect :
    (u : Update) (o : DdsOutput) (d : Dds) (c : ℕ) → u.channels < 256 → c < 4 → Sets u o d c
unfolding update_all
stream-effect u o d c flags hc =
    let mode = mode_bits o.mode in
    let w = update_writes mode u.channels u.ftw u.pow u.acr in
    let n = length (encode (w ++ [])) in
    let short : n ≤ 14 = rw append-nil (update_writes_short mode u.channels u.ftw u.pow u.acr) in
    let (b, words, e, on_bus, parsed) =
      stream-parse (u ∷ []) o (flags, tt) (padded_short n (n % 4) short) in
    let (f, p, a) = accept_update o.mode u (n % 4) d c hc flags in
    (
      b,
      words,
      w ++ padding mode (n % 4),
      sym (bind_some (update_channels u.channels u.ftw u.pow u.acr (builder o))) ∙ e,
      on_bus,
      parsed ∙ ap (λ vs. some (vs ++ padding mode (n % 4))) (append-nil w),
      f,
      p,
      a,
    )
