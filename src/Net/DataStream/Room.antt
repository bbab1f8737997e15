-- ===== src/Net/DataStream/Room.antt =====
-- `add` of src/net/data_stream.rs returns whenever the queue has room for one more frame, whatever
-- the pool lends.
use stabilizer.Prelude.{
  ℕ, ◌+◌, ◌≡◌, ◌≤◌, ◌<◌, refl, arith, sym, subst, List, [], ◌∷◌, ◌++◌, Option, none, some, length,
  u32, replicate, length-append, Bool-cases, inl, inr,
}
use stabilizer.Net.DataStream.{
  Pool, Queue, StreamFrame, frame_size, header_size, Batch, FrameGenerator, new_frame, is_full, add,
  current_or_new, add_to, queue_if_full,
}
use stabilizer.Net.DataStream.Contract.{QueueLaws}
use stabilizer.Net.DataStream.Frames.{Writes, new_frame-Collects, add_batch-Collects, is_full-false}
use stabilizer.Net.DataStream.Ownership.{Filling, new_frame_fits}

-- The frame of a generator, if it has one, has room for a batch of `len` bytes and the number of
-- the next batch.
pub record HasRoom (len : ℕ) (g : FrameGenerator) : Type 0 where
  pub filling : Filling len g.format g.sequence_number g.current_frame
  pub word : g.sequence_number < 4294967296

module _ (pool : Pool) {queue : Queue StreamFrame} (ql : QueueLaws queue) where
  open ql use {view, capacity}

  abbrev Kept : ℕ → Option (FrameGenerator × pool.State × queue.State) → Type 0
  Kept len result =
      (h : FrameGenerator) × (free : pool.State) × (queued : queue.State) × (result
        ≡ some (h, free, queued))
      × HasRoom len h

  fill_room :
      (len : ℕ) (f : Batch) (bytes : List ℕ) (g : FrameGenerator) (sequence : ℕ)
      (free rest : pool.State) (queued : queue.State) (frame : StreamFrame)
      → length bytes ≡ len
      → Writes f bytes
      → length (view queued) < capacity
      → Filling len g.format sequence (some frame)
      → g.sequence_number ≡ u32 (sequence + 1)
      → Kept len (add_to pool queue f g free queued (some (frame, rest)))
  unfolding add_to queue_if_full
  fill_room len f bytes g sequence free rest queued frame l writes room (first, bs, c, fits, at)
        next =
      let (more, e, c') = add_batch-Collects f bytes c writes (omega arith) in
      elim (Bool-cases (is_full (length bytes) more)) [
        | inl full ↦
            let (t, pushed, _) = ql.enqueue_some more queued room in
            (
              record g { current_frame = none },
              rest,
              t,
              rw e (rw full (rw pushed refl)),
              record { filling = tt; word = omega arith },
            )
        | inr left ↦ (
          record g { current_frame = some more },
          rest,
          queued,
          rw e (rw left refl),
          record {
            filling = (
              first,
              bs ++ bytes ∷ [],
              c',
              omega (arith, is_full-false (length bytes) c' left),
              omega (arith, length-append bs (bytes ∷ [])),
            );
            word = omega arith;
          },
        )
      ]

  -- By what the pool lends for a new frame.
  add_lent :
      (len : ℕ) (f : Batch) (bytes : List ℕ) (g : FrameGenerator) (sequence : ℕ) (free : pool.State)
      (queued : queue.State) (lent : Option pool.State)
      → length bytes ≡ len
      → Writes f bytes
      → header_size + len ≤ frame_size
      → sequence < 4294967296
      → length (view queued) < capacity
      → g.sequence_number ≡ u32 (sequence + 1)
      → g.current_frame ≡ none
      → pool.alloc free ≡ lent
      → Kept len
          (add_to pool queue f g free queued (current_or_new pool queue g sequence free none))
  unfolding current_or_new add_to
  add_lent len f bytes g sequence free queued none l writes fits word room next cur e = (
    g,
    free,
    queued,
    rw e refl,
    record {
      filling = subst (Filling len g.format g.sequence_number) (sym cur) tt;
      word = omega arith;
    },
  )
  add_lent len f bytes g sequence free queued (some rest) l writes fits word room next cur e =
      rw e (
        fill_room len f bytes g sequence free rest queued
          (new_frame (replicate frame_size none) g.format sequence) l writes room
          (
            sequence,
            [],
            new_frame-Collects g.format sequence,
            new_frame_fits g.format sequence len fits,
            omega arith,
          )
          next)

  add_current_room :
      (len : ℕ) (f : Batch) (bytes : List ℕ) (g : FrameGenerator) (sequence : ℕ) (free : pool.State)
      (queued : queue.State) (current : Option StreamFrame)
      → length bytes ≡ len
      → Writes f bytes
      → header_size + len ≤ frame_size
      → sequence < 4294967296
      → length (view queued) < capacity
      → g.sequence_number ≡ u32 (sequence + 1)
      → g.current_frame ≡ current
      → Filling len g.format sequence current
      → Kept len
          (add_to pool queue f g free queued (current_or_new pool queue g sequence free current))
  unfolding current_or_new
  add_current_room len f bytes g sequence free queued (some frame) l writes fits word room next cur
        filling =
      fill_room len f bytes g sequence free free queued frame l writes room filling next
  add_current_room len f bytes g sequence free queued none l writes fits word room next cur
        filling =
      add_lent len f bytes g sequence free queued (pool.alloc free) l writes fits word room next cur
        refl

  pub add-HasRoom :
      (len : ℕ) (f : Batch) (bytes : List ℕ) (g : FrameGenerator) (free : pool.State)
      (queued : queue.State)
      → length bytes ≡ len
      → Writes f bytes
      → header_size + len ≤ frame_size
      → length (view queued) < capacity
      → HasRoom len g
      → (h : FrameGenerator) × (free' : pool.State) × (queued' : queue.State) × (add pool queue f g
            free queued
          ≡ some (h, free', queued'))
        × HasRoom len h
  unfolding add
  add-HasRoom len f bytes g free queued l writes fits room has =
      add_current_room len f bytes (record g { sequence_number = u32 (g.sequence_number + 1) })
        g.sequence_number free queued g.current_frame l writes fits has.word room refl refl
        has.filling
