-- ===== src/Apps/Streaming.antt =====
-- The batch of samples that both applications add to the stream (src/bin/dual-iir.rs and
-- src/bin/lockin.rs, in `process`).
pub mod Steps
use stabilizer.Prelude.{
  ℕ, zero, suc, ◌+◌, ◌*◌, ◌-◌, ◌≡◌, ◌≤◌, refl, arith, ap, ap₂, sym, ◌∙◌, subst, ltb, if◌then◌else◌,
  Bool, true, false, List, [], ◌∷◌, ◌++◌, Option, none, some, get_or, length, take, drop, le16,
  append_assoc, append-nil, length-append, take-append, split_at,
}
use stabilizer.Hardware.Codes.{adc_code, dac_code_of_u16}
use stabilizer.Net.Telemetry.{TelemetryBuffer}
use stabilizer.Net.DataStream.{Cell, Batch}
use stabilizer.Net.DataStream.Frames.{cells, concat, Writes, cells-append, drop-append}

abbrev pub batch_size : ℕ
batch_size = 8

-- The bytes of a buffer of `u16` in memory.
abbrev pub memory : List ℕ → List ℕ
memory [] = []
memory (x ∷ xs) = le16 x ++ memory xs

-- Each buffer is copied to its chunk of `n` cells, as far as whole chunks go: `zip` with
-- `chunks_exact_mut(n)`. A buffer has `n` bytes.
abbrev pub copy_chunks : ℕ → List (List ℕ) → List Cell → List Cell
copy_chunks n [] buf = buf
copy_chunks n (bytes ∷ rest) buf =
    let others = copy_chunks n rest (drop n buf) in
    if ltb (length buf) n then buf else cells (take n bytes) ++ others

abbrev pub chunk_size : ℕ
chunk_size = batch_size * 2

-- The closure that is given to `add`.
abbrev pub sample_batch : List (List ℕ) → Batch
sample_batch buffers slice = (copy_chunks chunk_size buffers slice, chunk_size * 4)

-- Two inputs and two outputs.
abbrev pub buffers_of : List ℕ × List ℕ → List ℕ × List ℕ → List (List ℕ)
buffers_of adcs dacs = memory adcs.0 ∷ memory adcs.1 ∷ memory dacs.0 ∷ memory dacs.1 ∷ []

-- The telemetry of a batch: the digital inputs, and the first sample of each buffer.
abbrev pub measured : Bool × Bool → ℕ × ℕ → ℕ × ℕ → TelemetryBuffer
measured digital_inputs inputs outputs = record {
  adcs = (adc_code inputs.0, adc_code inputs.1);
  dacs = (dac_code_of_u16 outputs.0, dac_code_of_u16 outputs.1);
  digital_inputs = digital_inputs;
}

-- `samples[0]`, and its value where there are samples.
abbrev pub first : List ℕ → Option ℕ
first [] = none
first (x ∷ xs) = some x

abbrev pub head : List ℕ → ℕ
head xs = get_or xs 0 0

pub first-head : (xs : List ℕ) → length xs ≡ batch_size → first xs ≡ some (head xs)
first-head [] e = absurd (omega arith)
first-head (x ∷ xs) e = refl

pub length-memory : (xs : List ℕ) → length (memory xs) ≡ length xs * 2
length-memory [] = refl
length-memory (x ∷ xs) = omega (arith, length-memory xs)

-- Buffers that all have `n` bytes.
abbrev AllOf : ℕ → List (List ℕ) → Type 0
AllOf n [] = Unit
AllOf n (bytes ∷ rest) = (length bytes ≡ n) × AllOf n rest

taken : (bytes : List ℕ) (n : ℕ) → length bytes ≡ n → take n bytes ≡ bytes
taken bytes n e =
    subst (λ m. take m bytes ≡ bytes) e
      (ap (take (length bytes)) (sym (append-nil bytes)) ∙ take-append bytes [])

dropped : (front back : List Cell) (n : ℕ) → length front ≡ n → drop n (front ++ back) ≡ back
dropped front back n e = subst (λ m. drop m (front ++ back) ≡ back) e (drop-append front back)

not_short :
    (n : ℕ) (front back : List Cell) → length front ≡ n → ltb (length (front ++ back)) n ≡ false
not_short n front back e = ground (arith, length-append front back)

-- Buffers that fill the front of a slice are copied to it, one after the other.
copied :
    (n : ℕ) (buffers : List (List ℕ)) (front back : List Cell)
    → AllOf n buffers
    → length front ≡ length (concat buffers)
    → copy_chunks n buffers (front ++ back) ≡ cells (concat buffers) ++ back
copied n [] [] back all e = refl
copied n [] (c ∷ front) back all e = absurd (omega arith)
copied n (bytes ∷ rest) front back (size, all) e =
    let total = length-append bytes (concat rest) in
    let (f, g, split, l) = split_at n front (omega arith) in
    let others = copied n rest g back all (omega (arith, ap length split, length-append f g)) in
    let whole = ap (λ l. l ++ back) split ∙ append_assoc f g back in
    rw (whole, not_short n f (g ++ back) l, taken bytes n size, dropped f (g ++ back) n l, others)
      (sym (append_assoc (cells bytes) (cells (concat rest)) back)
        ∙ ap (λ l. l ++ back) (sym (cells-append bytes (concat rest))))

concat_four :
    (a b c d : List ℕ)
    → length a ≡ chunk_size
    → length b ≡ chunk_size
    → length c ≡ chunk_size
    → length d ≡ chunk_size
    → length (concat (a ∷ b ∷ c ∷ d ∷ [])) ≡ 64
concat_four a b c d ha hb hc hd = omega (
  arith,
  length-append a (b ++ (c ++ (d ++ []))),
  length-append b (c ++ (d ++ [])),
  length-append c (d ++ []),
  length-append d [],
)

sample_batch_lem :
    (buffers : List (List ℕ))
    → AllOf chunk_size buffers
    → length (concat buffers) ≡ 64
    → Writes (sample_batch buffers) (concat buffers)
sample_batch_lem buffers all total slice room =
    let (front, back, e, l) = split_at (length (concat buffers)) slice room in
    ap₂ (λ (c : List Cell) (n : ℕ). (c, n))
      (rw e (
        copied chunk_size buffers front back all l
        ∙ ap (λ b. cells (concat buffers) ++ b) (sym (dropped front back _ l))))
      (sym total)

filled : (xs : List ℕ) → length xs ≡ batch_size → length (memory xs) ≡ chunk_size
filled xs e = omega (arith, length-memory xs)

-- Four buffers of a batch fill 64 bytes.
pub sample_batch-Writes :
    (adcs dacs : List ℕ × List ℕ)
    → length adcs.0 ≡ batch_size
    → length adcs.1 ≡ batch_size
    → length dacs.0 ≡ batch_size
    → length dacs.1 ≡ batch_size
    → (length (concat (buffers_of adcs dacs)) ≡ 64)
      × Writes (sample_batch (buffers_of adcs dacs)) (concat (buffers_of adcs dacs))
sample_batch-Writes adcs dacs a0 a1 d0 d1 =
    let m0 = filled adcs.0 a0 in
    let m1 = filled adcs.1 a1 in
    let m2 = filled dacs.0 d0 in
    let m3 = filled dacs.1 d1 in
    let total =
      concat_four (memory adcs.0) (memory adcs.1) (memory dacs.0) (memory dacs.1) m0 m1 m2 m3 in
    (total, sample_batch_lem (buffers_of adcs dacs) (m0, (m1, (m2, (m3, tt)))) total)
