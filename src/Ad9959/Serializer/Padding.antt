-- ===== src/Ad9959/Serializer/Padding.antt =====
-- `pad` in terms of writes: what it appends, by the remainder of the length.
use stabilizer.Prelude.{
  ℕ, zero, suc, ◌+◌, ◌/◌, ◌%◌, ◌≡◌, ◌≤◌, refl, arith, ap, List, [], ◌∷◌, ◌++◌, some, length, not,
  Bool, true, false, subst, if◌then◌else◌, append-nil, append_assoc, u8, ◌==◌, ◌∙◌,
}
use stabilizer.Ad9959.{Register}
use stabilizer.Ad9959.Serializer.{ProfileSerializer, add_write, pad}
use stabilizer.Ad9959.Serializer.Device.{Write, encode}
use stabilizer.Ad9959.Serializer.Layout.{IsLaidOut, Lays, add_write-Lays, length-encode-append}

-- The writes that fill up to a multiple of four, by the remainder of the length.
abbrev pub padding : ℕ → ℕ → List Write
padding mode zero = []
padding mode (suc zero) = record { register = Register.lsrr; value = 0 ∷ 0 ∷ [] } ∷ []
padding mode (suc (suc zero)) = record { register = Register.csr; value = u8 mode ∷ [] } ∷ []
padding mode (suc (suc (suc _))) =
    record { register = Register.lsrr; value = 0 ∷ 0 ∷ [] }
    ∷ record { register = Register.csr; value = u8 mode ∷ [] }
    ∷ []

-- The two tests of `pad`, at the length that was laid out.
pad_step :
    (odd half : Bool) (s s1 s2 : ProfileSerializer)
    → (s.index % 2 == 0) ≡ not odd
    → (if odd then add_write Register.lsrr (0 ∷ 0 ∷ []) s else some s) ≡ some s1
    → (s1.index / 2 % 2 == 0) ≡ not half
    → (if half then add_write Register.csr (u8 s1.mode ∷ []) s1 else some s1) ≡ some s2
    → pad s ≡ some s2
unfolding pad
pad_step true true s s1 s2 h1 e1 h2 e2 = rw h1 (rw e1 (rw h2 e2))
pad_step true false s s1 s2 h1 e1 h2 e2 = rw h1 (rw e1 (rw h2 e2))
pad_step false true s s1 s2 h1 e1 h2 e2 = ground arith
pad_step false false s s1 s2 h1 e1 h2 e2 = ground arith

pad-Lays_at :
    (k : ℕ) (ws : List Write) {s : ProfileSerializer}
    → IsLaidOut s.mode ws s
    → length (encode ws) % 4 ≡ k
    → length (encode ws) + length (encode (padding s.mode k)) ≤ 32
    → Lays s.mode (ws ++ padding s.mode k) (pad s)
pad-Lays_at zero ws {s} h r fits = (
  s,
  pad_step false false s s s (ground (arith, h.index_at_end)) refl (ground (arith, h.index_at_end))
      refl,
  rw append-nil h,
)
pad-Lays_at (suc zero) ws {s} h r fits =
    let (t, e, g) = add_write-Lays Register.lsrr (0 ∷ 0 ∷ []) h (omega arith) in
    (
      t,
      pad_step true false s t t (ground (arith, h.index_at_end)) e
          (ground (arith, g.index_at_end, length-encode-append ws (padding s.mode 1))) refl,
      g,
    )
pad-Lays_at (suc (suc zero)) ws {s} h r fits =
    let (t, e, g) = add_write-Lays Register.csr (u8 s.mode ∷ []) h (omega arith) in
    (
      t,
      pad_step false true s s t (ground (arith, h.index_at_end)) refl
          (ground (arith, h.index_at_end)) e,
      g,
    )
pad-Lays_at (suc (suc (suc zero))) ws {s} h r fits =
    let (t, e, g) = add_write-Lays Register.lsrr (0 ∷ 0 ∷ []) h (omega arith) in
    let longer = length-encode-append ws (padding s.mode 1) in
    let (u, e', g') = add_write-Lays Register.csr (u8 s.mode ∷ []) g (omega (arith, longer)) in
    (
      u,
      pad_step true true s t u (ground (arith, h.index_at_end)) e
          (ground (arith, g.index_at_end, longer))
          (ap (λ (m : ℕ). add_write Register.csr (u8 m ∷ []) t) g.mode_kept ∙ e'),
      subst (λ vs. IsLaidOut s.mode vs u) (append_assoc ws (padding s.mode 1) (padding s.mode 2))
          g',
    )
pad-Lays_at (suc (suc (suc (suc k)))) ws {s} h r fits = absurd (omega arith)

pub pad-Lays :
    {mode : ℕ} (ws : List Write) {s : ProfileSerializer}
    → IsLaidOut mode ws s
    → length (encode ws) + length (encode (padding mode (length (encode ws) % 4))) ≤ 32
    → Lays mode (ws ++ padding mode (length (encode ws) % 4)) (pad s)
pad-Lays {mode} ws {s} h fits =
    subst
      (λ m.
        IsLaidOut m ws s
        → length (encode ws) + length (encode (padding m (length (encode ws) % 4))) ≤ 32
        → Lays m (ws ++ padding m (length (encode ws) % 4)) (pad s))
      h.mode_kept (λ g f. pad-Lays_at (length (encode ws) % 4) ws g refl f) h fits
