-- ===== src/Net/DataStream/Contract.antt =====
-- What the code relies on in the pool of buffers and the single-producer queue, after the
-- documentation of heapless: a pool lends as many buffers as it manages, a queue is first in first
-- out up to its capacity.
use stabilizer.Prelude.{ℕ, suc, ◌≡◌, ◌<◌, ◌≤◌, List, [], ◌∷◌, ◌++◌, none, some, length}
use stabilizer.Net.DataStream.{Pool, Queue, StreamFrame, frame_count}

pub record PoolLaws (pool : Pool) : Type 0 where
  pub available : pool.State → ℕ
  pub alloc_some :
      (s : pool.State)
      → 0 < available s
      → (t : pool.State) × (pool.alloc s ≡ some t) × (available s ≡ suc (available t))
  pub alloc_none : (s : pool.State) → available s ≡ 0 → pool.alloc s ≡ none
  pub available-release : (s : pool.State) → available (pool.release s) ≡ suc (available s)

pub record QueueLaws (queue : Queue StreamFrame) : Type 0 where
  pub view : queue.State → List StreamFrame
  pub capacity : ℕ
  pub view-new : view queue.new ≡ []
  pub enqueue_some :
      (frame : StreamFrame) (s : queue.State)
      → length (view s) < capacity
      → (t : queue.State) × (queue.enqueue frame s ≡ some t) × (view t ≡ view s ++ frame ∷ [])
  pub dequeue_none : (s : queue.State) → view s ≡ [] → queue.dequeue s ≡ none
  pub dequeue_some :
      (s : queue.State) (frame : StreamFrame) (rest : List StreamFrame)
      → view s ≡ frame ∷ rest
      → (t : queue.State) × (queue.dequeue s ≡ some (frame, t)) × (view t ≡ rest)
  -- The queue holds every buffer of the pool.
  pub enough : frame_count ≤ capacity
