-- ===== src/Apps/Streaming/Steps.antt =====
-- A batch of samples and codes is a step of the stream.
use stabilizer.Prelude.{ℕ, ◌≡◌, refl, arith, true, List, [], ◌∷◌, ◌++◌, some, length}
use stabilizer.Net.DataStream.{Pool, Queue, StreamFrame, FrameGenerator, add}
use stabilizer.Net.DataStream.Contract.{PoolLaws, QueueLaws}
use stabilizer.Net.DataStream.Frames.{concat}
use stabilizer.Net.DataStream.Transmit.{UdpStack}
use stabilizer.Net.DataStream.System.{System, Reach, then, batch, history, IsInitial, Reach-Adds}
use stabilizer.Apps.Streaming.{batch_size, buffers_of, sample_batch, sample_batch-Writes}

module _ {pool : Pool} {queue : Queue StreamFrame} {udp : UdpStack} (pl : PoolLaws pool)
    (ql : QueueLaws queue)
    (closes : (socket : udp.Socket) (s : udp.State) → (udp.close socket s).1 ≡ true) where
  -- The system with the generator, the pool and the queue that `add` leaves.
  abbrev pub after_add :
      System pool queue udp → FrameGenerator → pool.State → queue.State → System pool queue udp
  after_add t generator free queued = record {
    generator = generator;
    stream = record (t.stream) { free = free; queued = queued };
  }

  -- The run goes on with this generator, pool and queue, and its history with these buffers.
  abbrev pub Extends :
      {s t : System pool queue udp}
      → Reach udp ql 64 s t
      → List ℕ × List ℕ
      → List ℕ × List ℕ
      → FrameGenerator
      → pool.State
      → queue.State
      → Type 0
  Extends {s} {t} r adcs dacs generator free queued =
      (next : Reach udp ql 64 s (after_add t generator free queued)) × (history udp ql next
        ≡ history udp ql r ++ concat (buffers_of adcs dacs) ∷ [])

  pub Reach-Extends :
      (format : ℕ) {s t : System pool queue udp} (adcs dacs : List ℕ × List ℕ)
      → IsInitial pl ql closes format s
      → (r : Reach udp ql 64 s t) → length adcs.0 ≡ batch_size
      → length adcs.1 ≡ batch_size
      → length dacs.0 ≡ batch_size
      → length dacs.1 ≡ batch_size
      → (h : FrameGenerator) × (free : pool.State) × (queued : queue.State) × (add pool queue
            (sample_batch (buffers_of adcs dacs))
            t.generator
            t.stream.free
            t.stream.queued
          ≡ some (h, free, queued))
        × Extends r adcs dacs h free queued
  Reach-Extends format {s} {t} adcs dacs i r a0 a1 d0 d1 =
      let (size, writes) = sample_batch-Writes adcs dacs a0 a1 d0 d1 in
      let bytes = concat (buffers_of adcs dacs) in
      let (h, free, queued, run, _, _, _) =
        Reach-Adds pl ql closes 64 format s (sample_batch (buffers_of adcs dacs)) bytes
          (omega arith) i r size writes in
      (
        h,
        free,
        queued,
        run,
        (
          then r (
              batch (sample_batch (buffers_of adcs dacs)) bytes h free queued writes size run refl),
          refl,
        ),
      )
