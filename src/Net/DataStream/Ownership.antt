-- ===== src/Net/DataStream/Ownership.antt =====
-- Every buffer of the pool is free, queued, or being filled, so a full frame always finds room in
-- the queue.
use stabilizer.Prelude.{
  ℕ, zero, suc, ◌+◌, ◌≡◌, ◌≤◌, ◌<◌, refl, arith, ap, sym, subst, List, [], ◌∷◌, ◌++◌, Option, none,
  some, length, u32, replicate, length-append, Bool-cases, inl, inr, ◌⊎◌,
}
use stabilizer.Net.DataStream.{
  Pool, Queue, StreamFrame, frame_count, frame_size, header_size, Batch, FrameGenerator, new_frame,
  is_full, add, current_or_new, add_to, queue_if_full,
}
use stabilizer.Net.DataStream.Contract.{PoolLaws, QueueLaws}
use stabilizer.Net.DataStream.Frames.{
  Writes, Collects, new_frame-Collects, add_batch-Collects, is_full-false,
}

abbrev pub held : Option StreamFrame → ℕ
held none = 0
held (some frame) = 1

-- The frame that is being filled: it has room for a batch of `len` bytes, and the next batch is the
-- one that the sequence number says.
abbrev pub Filling : ℕ → ℕ → ℕ → Option StreamFrame → Type 0
Filling len format sequence none = Unit
Filling len format sequence (some frame) =
    (first : ℕ) × (bs : List (List ℕ)) × Collects format first bs frame
    × (frame.offset + len ≤ frame_size)
    × (u32 (first + length bs) ≡ sequence)

pub zero-or-pos : (n : ℕ) → (n ≡ 0) ⊎ (0 < n)
zero-or-pos zero = inl refl
zero-or-pos (suc n) = inr (omega arith)

pub new_frame_fits :
    (format sequence len : ℕ)
    → header_size + len ≤ frame_size
    → (new_frame (replicate frame_size none) format sequence).offset + len ≤ frame_size
unfolding new_frame
new_frame_fits format sequence len h = h

module _ {pool : Pool} {queue : Queue StreamFrame} (pl : PoolLaws pool) (ql : QueueLaws queue) where
  open pl use {available}
  open ql use {view}

  pub record Owns (len : ℕ) (g : FrameGenerator) (free : pool.State) (queued : queue.State)
      : Type 0 where
    pub balanced : available free + length (view queued) + held g.current_frame ≡ frame_count
    pub filling : Filling len g.format g.sequence_number g.current_frame
    pub word : g.sequence_number < 4294967296

  -- `add` returns, with the next sequence number, and keeps the invariant.
  abbrev pub Adds : ℕ → Batch → FrameGenerator → pool.State → queue.State → Type 0
  Adds len f g free queued =
      (h : FrameGenerator) × (free' : pool.State) × (queued' : queue.State) × (add pool queue f g
          free queued
        ≡ some (h, free', queued'))
      × (h.sequence_number ≡ u32 (g.sequence_number + 1))
      × (h.format ≡ g.format)
      × Owns len h free' queued'

  -- A batch of the usual length is added to a frame that has room for it.
  fill :
      (len : ℕ) (f : Batch) (bytes : List ℕ) (g : FrameGenerator) (sequence : ℕ) (free : pool.State)
      (queued : queue.State) (frame : StreamFrame)
      → length bytes ≡ len
      → Writes f bytes
      → available free + length (view queued) + 1 ≡ frame_count
      → Filling len g.format sequence (some frame)
      → g.sequence_number ≡ u32 (sequence + 1)
      → (h : FrameGenerator) × (queued' : queue.State) × (add_to pool queue f g free queued
            (some (frame, free))
          ≡ some (h, free, queued'))
        × (h.sequence_number ≡ g.sequence_number)
        × (h.format ≡ g.format)
        × Owns len h free queued'
  unfolding add_to queue_if_full
  fill len f bytes g sequence free queued frame l writes balance (first, bs, c, fits, at) next =
      let (more, e, c') = add_batch-Collects f bytes c writes (omega arith) in
      elim (Bool-cases (is_full (length bytes) more)) [
        | inl full ↦
            let (t, pushed, v) = ql.enqueue_some more queued (omega (arith, ql.enough)) in
            (
              record g { current_frame = none },
              t,
              rw e (rw full (rw pushed refl)),
              refl,
              refl,
              record {
                balanced = omega (arith, ap length v, length-append (view queued) (more ∷ []));
                filling = tt;
                word = omega arith;
              },
            )
        | inr room ↦ (
          record g { current_frame = some more },
          queued,
          rw e (rw room refl),
          refl,
          refl,
          record {
            balanced = balance;
            filling = (
              first,
              bs ++ bytes ∷ [],
              c',
              omega (arith, is_full-false (length bytes) c' room),
              omega (arith, length-append bs (bytes ∷ [])),
            );
            word = omega arith;
          },
        )
      ]

  -- From any generator, by the frame that it has.
  add_current :
      (len : ℕ) (f : Batch) (bytes : List ℕ) (g : FrameGenerator) (sequence : ℕ) (free : pool.State)
      (queued : queue.State) (current : Option StreamFrame)
      → length bytes ≡ len
      → Writes f bytes
      → header_size + len ≤ frame_size
      → sequence < 4294967296
      → g.sequence_number ≡ u32 (sequence + 1)
      → g.current_frame ≡ current
      → available free + length (view queued) + held current ≡ frame_count
      → Filling len g.format sequence current
      → (h : FrameGenerator) × (free' : pool.State) × (queued' : queue.State) × (add_to pool queue f
            g free queued
            (current_or_new pool queue g sequence free current)
          ≡ some (h, free', queued'))
        × (h.sequence_number ≡ g.sequence_number)
        × (h.format ≡ g.format)
        × Owns len h free' queued'
  unfolding current_or_new add_to
  add_current len f bytes g sequence free queued (some frame) l writes fits word next cur balance
        filling =
      let (h, q, e, s, t, o) =
        fill len f bytes g sequence free queued frame l writes balance filling next in
      (h, free, q, e, s, t, o)
  add_current len f bytes g sequence free queued none l writes fits word next cur balance filling =
      elim (zero-or-pos (available free)) [
        | inl empty ↦ (
          g,
          free,
          queued,
          rw (pl.alloc_none free empty) refl,
          refl,
          refl,
          record {
            balanced = rw cur balance;
            filling = subst (Filling len g.format g.sequence_number) (sym cur) tt;
            word = omega arith;
          },
        )
        | inr some_left ↦
            let (rest, lent, less) = pl.alloc_some free some_left in
            let (h, q, e, s, t, o) =
              fill len f bytes g sequence rest queued
                (new_frame (replicate frame_size none) g.format sequence) l writes (omega arith)
                (
                  sequence,
                  [],
                  new_frame-Collects g.format sequence,
                  new_frame_fits g.format sequence len fits,
                  omega arith,
                )
                next in
            (h, rest, q, rw lent e, s, t, o)
      ]

  -- While every buffer is free, queued or being filled, and the batches have the usual length, `add`
  -- never panics; the sequence number counts the batch whether or not it was kept, a frame that is
  -- left to be filled began with the number that its header says, and the invariant holds again.
  pub add-Adds :
      (len : ℕ) (f : Batch) (bytes : List ℕ) (g : FrameGenerator) (free : pool.State)
      (queued : queue.State)
      → length bytes ≡ len
      → Writes f bytes
      → header_size + len ≤ frame_size
      → Owns len g free queued
      → Adds len f g free queued
  unfolding add
  add-Adds len f bytes g free queued l writes fits o =
      add_current len f bytes (record g { sequence_number = u32 (g.sequence_number + 1) })
        g.sequence_number free queued g.current_frame l writes fits o.word refl refl o.balanced
        o.filling
