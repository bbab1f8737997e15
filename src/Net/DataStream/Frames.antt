-- ===== src/Net/DataStream/Frames.antt =====
-- What a frame holds, and the packet that it becomes.
use stabilizer.Prelude.{
  ℕ, false, zero, suc, ◌+◌, ◌-◌, ◌≡◌, ◌≤◌, refl, arith, ap, sym, ◌∙◌, subst, List, [], ◌∷◌, ◌++◌,
  Option, none, some, length, take, drop, replicate, u8, le16, le32, le→leb, append_assoc,
  append-nil, length-append, take-append, length-replicate,
}
use stabilizer.Prelude.Results.{◌>>=◌}
use stabilizer.Net.DataStream.{
  Cell, is_full, magic, header, header_size, frame_size, StreamFrame, new_frame, Batch, add_batch,
  finish,
}

-- The bytes of batches in a row.
abbrev pub concat : List (List ℕ) → List ℕ
concat [] = []
concat (b ∷ bs) = b ++ concat bs

abbrev pub cells : List ℕ → List Cell
cells [] = []
cells (b ∷ bytes) = some b ∷ cells bytes

-- The client writes these bytes at the start of a slice that has room for them, and counts them.
abbrev pub Writes : Batch → List ℕ → Type 0
Writes f bytes =
    (slice : List Cell)
    → length bytes ≤ length slice
    → f slice ≡ (cells bytes ++ drop (length bytes) slice, length bytes)

-- The frame began with batch `first` and has collected these batches.
pub record Collects (format first : ℕ) (batches : List (List ℕ)) (frame : StreamFrame)
    : Type 0 where
  pub room : List Cell
  pub collected : frame.buffer ≡ cells (header format first ++ concat batches) ++ room
  pub offset_at_end : frame.offset ≡ length (header format first ++ concat batches)
  pub counted : frame.batches ≡ u8 (length batches)
  pub size : frame.offset + length room ≡ frame_size

pub cells-append : (xs ys : List ℕ) → cells (xs ++ ys) ≡ cells xs ++ cells ys
cells-append [] ys = refl
cells-append (x ∷ xs) ys = ap (◌∷◌ (some x)) (cells-append xs ys)

pub length-cells : (xs : List ℕ) → length (cells xs) ≡ length xs
length-cells [] = refl
length-cells (x ∷ xs) = ap suc (length-cells xs)

pub concat-append : (bs : List (List ℕ)) (b : List ℕ) → concat (bs ++ b ∷ []) ≡ concat bs ++ b
concat-append [] b = append-nil b
concat-append (c ∷ bs) b = ap (◌++◌ c) (concat-append bs b) ∙ sym (append_assoc c (concat bs) b)

pub drop-append : (xs ys : List Cell) → drop (length xs) (xs ++ ys) ≡ ys
drop-append [] ys = refl
drop-append (x ∷ xs) ys = drop-append xs ys

length-drop : (n : ℕ) (xs : List Cell) → length (drop n xs) ≡ length xs - n
length-drop zero xs = omega arith
length-drop (suc n) [] = omega arith
length-drop (suc n) (x ∷ xs) = omega (arith, length-drop n xs)

split :
    (buffer front back : List Cell) (i : ℕ)
    → buffer ≡ front ++ back
    → i ≡ length front
    → (take i buffer ≡ front) × (drop i buffer ≡ back)
split buffer front back i e at =
    (rw (e, at) (take-append front back), rw (e, at) (drop-append front back))

taken :
    (bytes : List ℕ) (room : List Cell) → take (length bytes) (cells bytes ++ room) ≡ cells bytes
taken bytes room = rw (← length-cells bytes) (take-append (cells bytes) room)

regroup :
    (bs : List (List ℕ)) (bytes head : List ℕ) (rest : List Cell)
    → cells (head ++ concat bs) ++ (cells bytes ++ rest)
      ≡ cells (head ++ concat (bs ++ bytes ∷ [])) ++ rest
regroup bs bytes head rest = simp (concat-append, cells-append, append_assoc)

pub new_frame-Collects :
    (format first : ℕ)
    → Collects format first [] (new_frame (replicate frame_size none) format first)
unfolding new_frame
new_frame-Collects format first = record {
  room = replicate (frame_size - header_size) none;
  collected = refl;
  offset_at_end = refl;
  counted = refl;
  size = omega (arith, length-replicate {A = Cell} (frame_size - header_size) none);
}

-- A batch that fits is appended.
pub add_batch-Collects :
    {format first : ℕ} {bs : List (List ℕ)} {frame : StreamFrame} (f : Batch) (bytes : List ℕ)
    → Collects format first bs frame
    → Writes f bytes
    → frame.offset + length bytes ≤ frame_size
    → (next : StreamFrame) × (add_batch f frame ≡ some (next, length bytes))
      × Collects format first (bs ++ bytes ∷ []) next
unfolding add_batch
add_batch-Collects {format} {first} {bs} {frame} f bytes h writes fits =
    let pre = cells (header format first ++ concat bs) in
    let at : frame.offset ≡ length pre =
      h.offset_at_end ∙ sym (length-cells (header format first ++ concat bs)) in
    let (front, back) = split frame.buffer pre h.room frame.offset h.collected at in
    let inside : frame.offset ≤ length frame.buffer =
      rw h.collected (omega (arith, at, length-append pre h.room)) in
    let enough : length bytes ≤ length h.room = omega (arith, h.size) in
    (
      record {
        buffer = pre ++ (cells bytes ++ drop (length bytes) h.room);
        offset = frame.offset + length bytes;
        batches = u8 (frame.batches + 1);
      },
      rw (le→leb _ _ inside, front, back, writes h.room enough) refl,
      record {
        room = drop (length bytes) h.room;
        collected = regroup bs bytes (header format first) (drop (length bytes) h.room);
        offset_at_end = omega (
          arith,
          h.offset_at_end,
          ap length (concat-append bs bytes),
          length-append (concat bs) bytes,
        );
        counted = omega (arith, h.counted, length-append bs (bytes ∷ []));
        size = omega (arith, h.size, length-drop (length bytes) h.room);
      },
    )

-- The packet: the magic word, the format, the number of batches, the number of the first batch, and
-- the batches in order, all of it initialised.
pub finish-Collects :
    {format first : ℕ} {bs : List (List ℕ)} {frame : StreamFrame}
    → Collects format first bs frame
    → (finish frame).1
      ≡ cells (le16 magic ++ ((format ∷ u8 (length bs) ∷ []) ++ (le32 first ++ concat bs)))
unfolding finish
finish-Collects {format} {first} {bs} {frame} h =
    rw (h.collected, h.offset_at_end, h.counted)
      (ap (λ (l : List Cell). header_cells ++ l) (taken (concat bs) h.room))
  where
    header_cells : List Cell
    header_cells = cells (le16 magic ++ ((format ∷ u8 (length bs) ∷ []) ++ le32 first))

pub length-buffer :
    {format first : ℕ} {bs : List (List ℕ)} {frame : StreamFrame}
    → Collects format first bs frame
    → length frame.buffer ≡ frame_size
length-buffer {format} {first} {bs} {frame} h =
    let whole = cells (header format first ++ concat bs) in
    omega (
      arith,
      h.size,
      h.offset_at_end,
      ap length h.collected,
      length-append whole h.room,
      length-cells (header format first ++ concat bs),
    )

-- A frame that is not full has room for another batch of that length.
pub is_full-false :
    (len : ℕ) {format first : ℕ} {bs : List (List ℕ)} {frame : StreamFrame}
    → Collects format first bs frame
    → is_full len frame ≡ false
    → frame.offset + len ≤ frame_size
unfolding is_full
is_full-false len h e = ground (arith, length-buffer h)

-- The batch of a client that copies these bytes.
abbrev pub copies : List ℕ → Batch
copies bytes slice = (cells bytes ++ drop (length bytes) slice, length bytes)

-- Batches added one after the other.
unfoldable pub add_batches : List (List ℕ) → StreamFrame → Option StreamFrame
add_batches [] frame = some frame
add_batches (b ∷ bs) frame = do (frame, len) ← add_batch (copies b) frame; add_batches bs frame

add_batches-Collects :
    {format first : ℕ} (done bs : List (List ℕ)) {frame : StreamFrame}
    → Collects format first done frame
    → frame.offset + length (concat bs) ≤ frame_size
    → (next : StreamFrame) × (add_batches bs frame ≡ some next)
      × Collects format first (done ++ bs) next
unfolding add_batches
add_batches-Collects done [] {frame} h fits = (frame, refl, rw append-nil h)
add_batches-Collects {format} {first} done (b ∷ bs) {frame} h fits =
    let total = length-append b (concat bs) in
    let (next, e, g) =
      add_batch-Collects (copies b) b h (λ slice room. refl) (omega (arith, total)) in
    let at = ap length (concat-append done b) in
    let (last, e', g') =
      add_batches-Collects (done ++ b ∷ []) bs g (
        omega
          (arith, total, at, length-append (concat done) b, h.offset_at_end, g.offset_at_end)) in
    (last, rw e e', subst (λ l. Collects format first l last) (append_assoc done (b ∷ []) bs) g')

new_frame_offset :
    (format first : ℕ) (bs : List (List ℕ))
    → header_size + length (concat bs) ≤ frame_size
    → (new_frame (replicate frame_size none) format first).offset + length (concat bs) ≤ frame_size
unfolding new_frame
new_frame_offset format first bs fits = fits

-- For batches that together fit a frame after the header: a new frame takes them all, and the
-- finished packet is the magic word, the format, the number of batches modulo 256, the number of
-- the first batch, all little-endian, then the batches in order, every cell initialised.
pub packet-add_batches :
    (format first : ℕ) (bs : List (List ℕ))
    → header_size + length (concat bs) ≤ frame_size
    → (frame : StreamFrame) × (add_batches bs (new_frame (replicate frame_size none) format first)
        ≡ some frame)
      × ((finish frame).1
          ≡ cells (le16 magic ++ ((format ∷ u8 (length bs) ∷ []) ++ (le32 first ++ concat bs))))
packet-add_batches format first bs fits =
    let (frame, e, h) =
      add_batches-Collects [] bs (new_frame-Collects format first)
        (new_frame_offset format first bs fits) in
    (frame, e, finish-Collects h)
