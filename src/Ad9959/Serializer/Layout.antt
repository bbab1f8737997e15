-- ===== src/Ad9959/Serializer/Layout.antt =====
-- The buffer holds the writes that were added, one after the other.
use stabilizer.Prelude.{
  ℕ, ◌+◌, ◌≡◌, ◌≤◌, refl, arith, ap, List, [], ◌∷◌, ◌++◌, Option, none, some, length, subst,
  append-nil, append_assoc, length-append, overwrite_fits, be16, be32, bit_or, u8, replicate, ◌∙◌,
  sym,
}
use stabilizer.Prelude.Results.{◌>>=◌}
use stabilizer.Ad9959.{Register, address, Mode, mode_bits}
use stabilizer.Ad9959.Serializer.{
  ProfileSerializer, new, add_write, add_write?, update_channels, be24,
}
use stabilizer.Ad9959.Serializer.Device.{Write, encode}

pub record IsLaidOut (mode : ℕ) (ws : List Write) (s : ProfileSerializer) : Type 0 where
  pub room : List ℕ
  pub laid_out : s.data_bytes ≡ encode ws ++ room
  pub index_at_end : s.index ≡ length (encode ws)
  pub size : length (encode ws) + length room ≡ 32
  pub mode_kept : s.mode ≡ mode

-- The code succeeds, and leaves a buffer with these writes.
abbrev pub Lays : ℕ → List Write → Option ProfileSerializer → Type 0
Lays mode ws result = (s : ProfileSerializer) × (result ≡ some s) × IsLaidOut mode ws s

pub encode-append : (ws vs : List Write) → encode (ws ++ vs) ≡ encode ws ++ encode vs
encode-append [] vs = refl
encode-append (w ∷ ws) vs =
    ap (◌∷◌ (address w.register))
      (ap (◌++◌ w.value) (encode-append ws vs) ∙ sym (append_assoc w.value (encode ws) (encode vs)))

pub length-encode-append :
    (ws vs : List Write) → length (encode (ws ++ vs)) ≡ length (encode ws) + length (encode vs)
length-encode-append ws vs = rw (encode-append, length-append) refl

pub new-IsLaidOut : (mode : Mode) → IsLaidOut (mode_bits mode) [] (new mode)
unfolding new
new-IsLaidOut mode = record {
  room = replicate 32 0;
  laid_out = refl;
  index_at_end = refl;
  size = refl;
  mode_kept = refl;
}

pub add_write-Lays :
    (r : Register) (value : List ℕ) {mode : ℕ} {ws : List Write} {s : ProfileSerializer}
    → IsLaidOut mode ws s
    → length (encode ws) + length value + 1 ≤ 32
    → Lays mode (ws ++ record { register = r; value = value } ∷ []) (add_write r value s)
unfolding add_write
add_write-Lays r value {mode} {ws} {s} h fits =
    let (rest, copied, left) =
      overwrite_fits s.data_bytes (encode ws) h.room (address r ∷ value) s.index h.laid_out
        h.index_at_end (omega (arith, h.size)) in
    (
      record s {
        data_bytes = encode ws ++ ((address r ∷ value) ++ rest);
        index = s.index + (length value + 1);
      },
      rw copied refl,
      record {
        room = rest;
        laid_out = rw (encode-append, append-nil, append_assoc) refl;
        index_at_end =
            rw (encode-append, append-nil, length-append) (omega (arith, h.index_at_end));
        size = rw (encode-append, append-nil, length-append) (omega (arith, h.size));
        mode_kept = h.mode_kept;
      },
    )

Lays-bind :
    {mode : ℕ} (ws vs : List Write) (m : Option ProfileSerializer)
    (f : ProfileSerializer → Option ProfileSerializer)
    → Lays mode ws m
    → ((s : ProfileSerializer) → IsLaidOut mode ws s → Lays mode vs (f s))
    → Lays mode vs (m >>= f)
Lays-bind ws vs m f (s, e, h) rest = rw e (rest s h)

-- The write of a word that is given, or none.
abbrev pub write? : Register → (ℕ → List ℕ) → Option ℕ → List Write
write? r bytes none = []
write? r bytes (some word) = record { register = r; value = bytes word } ∷ []

add_write?-Lays :
    (r : Register) (bytes : ℕ → List ℕ) (word : Option ℕ) {mode : ℕ} {ws : List Write}
    {s : ProfileSerializer}
    → IsLaidOut mode ws s
    → length (encode ws) + length (encode (write? r bytes word)) ≤ 32
    → Lays mode (ws ++ write? r bytes word) (add_write? r bytes word s)
unfolding add_write?
add_write?-Lays r bytes none {s = s} h fits = (s, refl, rw append-nil h)
add_write?-Lays r bytes (some word) h fits =
    add_write-Lays r (bytes word) h (omega (arith, fits, ap length (append-nil (bytes word))))

-- The writes that one call of `update_channels` stands for.
abbrev pub update_writes : ℕ → ℕ → Option ℕ → Option ℕ → Option ℕ → List Write
update_writes mode channels ftw phase acr =
    record { register = Register.csr; value = bit_or (u8 mode) channels ∷ [] }
    ∷ (write? Register.cftw0 be32 ftw
        ++ (write? Register.cpow0 be16 phase ++ write? Register.acr be24 acr))

-- Four appends to `ws` are one append of the four.
regroup : (ws c f p a : List Write) → (((ws ++ c) ++ f) ++ p) ++ a ≡ ws ++ (c ++ (f ++ (p ++ a)))
regroup ws c f p a = simp append_assoc

update_channels-Lays_own :
    (channels : ℕ) (ftw phase acr : Option ℕ) {ws : List Write} {s : ProfileSerializer}
    → IsLaidOut s.mode ws s
    → length (encode ws) + length (encode (update_writes s.mode channels ftw phase acr)) ≤ 32
    → Lays s.mode
        (ws ++ update_writes s.mode channels ftw phase acr)
        (update_channels channels ftw phase acr s)
unfolding update_channels
update_channels-Lays_own channels ftw phase acr {ws} {s} h fits =
    let c = write? Register.csr (λ word. bit_or (u8 s.mode) word ∷ []) (some channels) in
    let f = write? Register.cftw0 be32 ftw in
    let p = write? Register.cpow0 be16 phase in
    let a = write? Register.acr be24 acr in
    let total : length (encode (f ++ (p ++ a)))
        ≡ length (encode f) + (length (encode p) + length (encode a)) =
      rw (length-encode-append f (p ++ a), length-encode-append p a) refl in
    let (s1, e1, h1) =
      add_write-Lays Register.csr (bit_or (u8 s.mode) channels ∷ []) h (omega arith) in
    let (s2, e2, h2) =
      add_write?-Lays Register.cftw0 be32 ftw h1 (omega (arith, length-encode-append ws c)) in
    let (s3, e3, h3) =
      add_write?-Lays Register.cpow0 be16 phase h2
        (omega (arith, length-encode-append ws c, length-encode-append (ws ++ c) f)) in
    let (s4, e4, h4) = add_write?-Lays Register.acr be24 acr h3 (
      omega (
        arith,
        length-encode-append ws c,
        length-encode-append (ws ++ c) f,
        length-encode-append ((ws ++ c) ++ f) p,
      )) in
    (s4, rw e1 (rw e2 (rw e3 e4)), subst (λ vs. IsLaidOut s.mode vs s4) (regroup ws c f p a) h4)

pub update_channels-Lays :
    (channels : ℕ) (ftw phase acr : Option ℕ) {mode : ℕ} {ws : List Write} {s : ProfileSerializer}
    → IsLaidOut mode ws s
    → length (encode ws) + length (encode (update_writes mode channels ftw phase acr)) ≤ 32
    → Lays mode
        (ws ++ update_writes mode channels ftw phase acr)
        (update_channels channels ftw phase acr s)
update_channels-Lays channels ftw phase acr {mode} {ws} {s} h fits =
    subst
      (λ m.
        IsLaidOut m ws s
        → length (encode ws) + length (encode (update_writes m channels ftw phase acr)) ≤ 32
        → Lays m (ws ++ update_writes m channels ftw phase acr)
            (update_channels channels ftw phase acr s))
      h.mode_kept (update_channels-Lays_own channels ftw phase acr) h fits
