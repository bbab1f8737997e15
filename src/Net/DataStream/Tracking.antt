-- ===== src/Net/DataStream/Tracking.antt =====
-- A batch that is added extends the history, and a frame that is taken begins with the oldest batches
-- that were kept.
use stabilizer.Prelude.{
  ℕ, ◌+◌, ◌≡◌, ◌≤◌, ◌<◌, refl, arith, ap, sym, ◌∙◌, subst, List, [], ◌∷◌, ◌++◌, Option, none, some,
  length, u32, replicate, append_assoc, append-nil, length-append, Bool-cases, inl, inr,
}
use stabilizer.Net.DataStream.{
  Pool, Queue, StreamFrame, frame_count, frame_size, header_size, Batch, FrameGenerator, new_frame,
  is_full, add, current_or_new, add_to, queue_if_full,
}
use stabilizer.Net.DataStream.Contract.{PoolLaws, QueueLaws}
use stabilizer.Net.DataStream.Frames.{Writes, Collects, new_frame-Collects, add_batch-Collects}
use stabilizer.Net.DataStream.Ownership.{held, Filling, Owns, zero-or-pos, new_frame_fits}
use stabilizer.Net.DataStream.Pieces.{
  Piece, flat, Holds, Ongoing, Tracks, flat-append, Holds-append,
}

-- The batches with one more, when the frame goes to the queue.
whole_queued :
    (batches : List (List ℕ)) (bytes : List ℕ) (pieces : List Piece) (lost kept : List (List ℕ))
    → batches ≡ flat pieces ++ (lost ++ kept)
    → batches ++ bytes ∷ []
      ≡ flat (pieces ++ record { lost = lost; kept = kept ++ bytes ∷ [] } ∷ []) ++ []
whole_queued batches bytes pieces lost kept e = rw e (simp (flat-append, append_assoc, append-nil))

whole_kept :
    (batches : List (List ℕ)) (bytes : List ℕ) (pieces : List Piece) (rest : List (List ℕ))
    → batches ≡ flat pieces ++ rest
    → batches ++ bytes ∷ [] ≡ flat pieces ++ (rest ++ bytes ∷ [])
whole_kept batches bytes pieces rest e = rw e (append_assoc (flat pieces) rest (bytes ∷ []))

frame_fits :
    (len format sequence : ℕ) (frame : StreamFrame)
    → Filling len format sequence (some frame)
    → frame.offset + len ≤ frame_size
frame_fits len format sequence frame (_, _, _, fits, _) = fits

begun_new_frame :
    (f sequence format first : ℕ)
    → f ≡ format
    → sequence ≡ first
    → Collects format first [] (new_frame (replicate frame_size none) f sequence)
begun_new_frame f sequence format first e e' = rw (e, e') (new_frame-Collects format first)

module _ {pool : Pool} {queue : Queue StreamFrame} (pl : PoolLaws pool) (ql : QueueLaws queue) where
  open pl use {available}
  open ql use {view}

  -- The batch goes to this frame, which holds the end of the history.
  fill :
      (format start : ℕ) (batches : List (List ℕ)) (f : Batch) (bytes : List ℕ) (g : FrameGenerator)
      (free : pool.State) (queued : queue.State) (frame : StreamFrame) (pieces : List Piece)
      (lost kept : List (List ℕ))
      → Writes f bytes
      → frame.offset + length bytes ≤ frame_size
      → length (view queued) < ql.capacity
      → batches ≡ flat pieces ++ (lost ++ kept)
      → Holds format start pieces (view queued)
      → Collects format (u32 (start + length (flat pieces) + length lost)) kept frame
      → g.sequence_number ≡ u32 (start + (length batches + 1))
      → g.format ≡ format
      → (h : FrameGenerator) × (queued' : queue.State) × (add_to pool queue f g free queued
            (some (frame, free))
          ≡ some (h, free, queued'))
        × Tracks format start (batches ++ bytes ∷ []) h (view queued')
  unfolding add_to queue_if_full
  fill format start batches f bytes g free queued frame pieces lost kept writes fits space whole
        holds c number formatted =
      let (more, e, c') = add_batch-Collects f bytes c writes fits in
      let counted = length-append batches (bytes ∷ []) in
      elim (Bool-cases (is_full (length bytes) more)) [
        | inl full ↦
            let (t, pushed, v) = ql.enqueue_some more queued space in
            (
              record g { current_frame = none },
              t,
              rw e (rw full (rw pushed refl)),
              record {
                pieces = pieces ++ record { lost = lost; kept = kept ++ bytes ∷ [] } ∷ [];
                rest = [];
                whole = whole_queued batches bytes pieces lost kept whole;
                frames_hold = rw v (Holds-append format start pieces (view queued) _ more holds c');
                ongoing = tt;
                numbered = omega (arith, number, counted);
                formatted = formatted;
              },
            )
        | inr room ↦ (
          record g { current_frame = some more },
          queued,
          rw e (rw room refl),
          record {
            pieces = pieces;
            rest = (lost ++ kept) ++ bytes ∷ [];
            whole = whole_kept batches bytes pieces (lost ++ kept) whole;
            frames_hold = holds;
            ongoing = (lost, kept ++ bytes ∷ [], append_assoc lost kept (bytes ∷ []), c');
            numbered = omega (arith, number, counted);
            formatted = formatted;
          },
        )
      ]

  -- From any generator, by the frame that it has.
  add_current :
      (format start : ℕ) (batches : List (List ℕ)) (f : Batch) (bytes : List ℕ) (g : FrameGenerator)
      (sequence : ℕ) (free : pool.State) (queued : queue.State) (current : Option StreamFrame)
      (pieces : List Piece) (rest : List (List ℕ))
      → Writes f bytes
      → header_size + length bytes ≤ frame_size
      → g.current_frame ≡ current
      → available free + length (view queued) + held current ≡ frame_count
      → Filling (length bytes) format sequence current
      → batches ≡ flat pieces ++ rest
      → Holds format start pieces (view queued)
      → Ongoing format (start + length (flat pieces)) rest current
      → sequence ≡ u32 (start + length batches)
      → g.sequence_number ≡ u32 (sequence + 1)
      → g.format ≡ format
      → (h : FrameGenerator) × (free' : pool.State) × (queued' : queue.State) × (add_to pool queue f
            g free queued
            (current_or_new pool queue g sequence free current)
          ≡ some (h, free', queued'))
        × Tracks format start (batches ++ bytes ∷ []) h (view queued')
  unfolding current_or_new add_to
  add_current format start batches f bytes g sequence free queued (some frame) pieces rest writes
        fits cur balance filling whole holds (lost, kept, e, c) number next formatted =
      let (h, q, run, t) =
        fill format start batches f bytes g free queued frame pieces lost kept writes
          (frame_fits (length bytes) format sequence frame filling) (omega (arith, ql.enough))
          (whole ∙ ap (◌++◌ (flat pieces)) e) holds c (omega arith) formatted in
      (h, free, q, run, t)
  add_current format start batches f bytes g sequence free queued none pieces rest writes fits cur
        balance filling whole holds ongoing number next formatted =
      elim (zero-or-pos (available free)) [
        | inl empty ↦ (
          g,
          free,
          queued,
          rw (pl.alloc_none free empty) refl,
          record {
            pieces = pieces;
            rest = rest ++ bytes ∷ [];
            whole = whole_kept batches bytes pieces rest whole;
            frames_hold = holds;
            ongoing =
                subst (Ongoing format (start + length (flat pieces)) (rest ++ bytes ∷ [])) (sym cur)
                  tt;
            numbered = omega (arith, number, length-append batches (bytes ∷ []));
            formatted = formatted;
          },
        )
        | inr some_left ↦
            let (left, lent, less) = pl.alloc_some free some_left in
            let (h, q, run, t) =
              fill format start batches f bytes g left queued
                (new_frame (replicate frame_size none) g.format sequence) pieces rest [] writes
                (new_frame_fits g.format sequence (length bytes) fits) (omega (arith, ql.enough))
                (whole ∙ ap (◌++◌ (flat pieces)) (sym (append-nil rest))) holds
                (begun_new_frame g.format sequence format _ formatted
                  (omega (arith, number, ap length whole, length-append (flat pieces) rest)))
                (omega arith) formatted in
            (h, left, q, rw lent run, t)
      ]

  -- `add` puts the batch at the end of the history.
  pub add-Tracks :
      (format start : ℕ) (batches : List (List ℕ)) (f : Batch) (bytes : List ℕ) (g : FrameGenerator)
      (free : pool.State) (queued : queue.State)
      → Writes f bytes
      → header_size + length bytes ≤ frame_size
      → Owns pl ql (length bytes) g free queued
      → Tracks format start batches g (view queued)
      → (h : FrameGenerator) × (free' : pool.State) × (queued' : queue.State) × (add pool queue f g
            free queued
          ≡ some (h, free', queued'))
        × Tracks format start (batches ++ bytes ∷ []) h (view queued')
  unfolding add
  add-Tracks format start batches f bytes g free queued writes fits o t =
      add_current format start batches f bytes
        (record g { sequence_number = u32 (g.sequence_number + 1) }) g.sequence_number free queued
        g.current_frame t.pieces t.rest writes fits refl o.balanced
        (subst (λ n. Filling (length bytes) n g.sequence_number g.current_frame) t.formatted
          o.filling)
        t.whole t.frames_hold t.ongoing t.numbered refl t.formatted
