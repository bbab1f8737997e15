-- ===== src/Net/DataStream/System.antt =====
-- The generator and the stream over one pool and one queue, in any interleaving of batches, rounds
-- of the stream and changes of the remote.
pub mod Rounds
pub mod Carries
pub mod Tests
use stabilizer.Prelude.{
  ℕ, ◌+◌, ◌≡◌, ◌≤◌, ◌<◌, arith, ap, sym, ◌∙◌, subst, true, List, [], ◌∷◌, ◌++◌, some, length,
}
use mathlib.Core.Option.{some-injective}
use stabilizer.Net.DataStream.{
  Pool, Queue, StreamFrame, frame_count, frame_size, header_size, Batch, FrameGenerator,
  new_generator, configure, add,
}
use stabilizer.Net.DataStream.Contract.{PoolLaws, QueueLaws}
use stabilizer.Net.DataStream.Frames.{Writes}
use stabilizer.Net.DataStream.Ownership.{held, Filling, Owns, Adds, add-Adds}
use stabilizer.Net.DataStream.Transmit.{UdpStack, DataStream, StreamTarget, process, set_remote}
use stabilizer.Net.DataStream.Transmit.Delivery.{process-Delivers, set_remote_lem, stock}

pub record System (pool : Pool) (queue : Queue StreamFrame) (udp : UdpStack) : Type 0 where
  pub generator : FrameGenerator
  pub stream : DataStream pool queue udp

module _ {pool : Pool} {queue : Queue StreamFrame} (udp : UdpStack) (ql : QueueLaws queue) where
  open ql use {view}

  -- One step, of batches that all have `len` bytes.
  pub data Step (len : ℕ) (s t : System pool queue udp) : Type 0 where
    batch :
        (f : Batch) (bytes : List ℕ) (h : FrameGenerator) (free : pool.State) (queued : queue.State)
        → Writes f bytes
        → length bytes ≡ len
        → add pool queue f s.generator s.stream.free s.stream.queued ≡ some (h, free, queued)
        → t ≡ record { generator = h; stream = record (s.stream) { free = free; queued = queued } }
        → Step len s t
    round :
        (fuel : ℕ) (next : DataStream pool queue udp)
        → length (view s.stream.queued) < fuel
        → process pool queue udp fuel s.stream ≡ some next
        → t ≡ record s { stream = next }
        → Step len s t
    redirect :
        (remote : StreamTarget) (next : DataStream pool queue udp)
        → set_remote pool queue udp remote s.stream ≡ some next
        → t ≡ record s { stream = next }
        → Step len s t

  pub data Reach (len : ℕ) (s : System pool queue udp) : System pool queue udp → Type 0 where
    here : Reach len s s
    then : {t u : System pool queue udp} → Reach len s t → Step len t u → Reach len s u

  -- The batches of a run, kept or not.
  abbrev pub history : {len : ℕ} {s t : System pool queue udp} → Reach len s t → List (List ℕ)
  history here = []
  history (then r (batch f bytes h free queued _ _ _ _)) = history r ++ bytes ∷ []
  history (then r (round _ _ _ _ _)) = history r
  history (then r (redirect _ _ _ _)) = history r

module _ {pool : Pool} {queue : Queue StreamFrame} (pl : PoolLaws pool) (ql : QueueLaws queue) where
  Owns-result :
      (len : ℕ) (x y : FrameGenerator × pool.State × queue.State)
      → some x ≡ some y
      → Owns pl ql len x.0 x.1 x.2
      → Owns pl ql len y.0 y.1 y.2
  Owns-result len x y e =
      subst (λ (z : FrameGenerator × pool.State × queue.State). Owns pl ql len z.0 z.1 z.2)
        (some-injective x y e)

module _ {pool : Pool} {queue : Queue StreamFrame} {udp : UdpStack} (pl : PoolLaws pool)
    (ql : QueueLaws queue)
    (closes : (socket : udp.Socket) (s : udp.State) → (udp.close socket s).1 ≡ true) where
  open pl use {available}
  open ql use {view}

  abbrev pub Sound : ℕ → System pool queue udp → Type 0
  Sound len s = Owns pl ql len s.generator s.stream.free s.stream.queued

  -- The counts, when a step of the stream leaves their sum alone.
  pub owns_stock :
      (len : ℕ) (s : System pool queue udp) (t : DataStream pool queue udp)
      → stock udp pl ql t ≡ stock udp pl ql s.stream
      → Sound len s
      → Sound len (record s { stream = t })
  owns_stock len s t same o = record {
    balanced = omega (arith, o.balanced, same);
    filling = o.filling;
    word = o.word;
  }

  Step-Sound :
      (len : ℕ)
      → header_size + len ≤ frame_size
      → {s t : System pool queue udp} → Step udp ql len s t
      → Sound len s
      → Sound len t
  Step-Sound len fits {s} {t} (batch f bytes h free queued writes l run e) o =
      let (h', free', queued', run', _, _, o') =
        add-Adds pl ql len f bytes s.generator s.stream.free s.stream.queued l writes fits o in
      subst (Sound len) (sym e)
        (Owns-result pl ql len (h', free', queued') (h, free, queued) (sym run' ∙ run) o')
  Step-Sound len fits {s} {t} (round fuel left enough run e) o =
      let (next', run', _, same) = process-Delivers udp pl ql closes fuel s.stream enough in
      subst (Sound len) (sym e) (
        owns_stock len s left (ap (stock udp pl ql) (some-injective _ _ (sym run ∙ run')) ∙ same) o)
  Step-Sound len fits {s} {t} (redirect remote left run e) o =
      let (next', run', free, queued, _, _) = set_remote_lem udp pl ql closes remote s.stream in
      let same = some-injective _ _ (sym run ∙ run') in
      subst (Sound len) (sym e) (
        owns_stock len s left
          (ap (stock udp pl ql) same
            ∙ (ap (λ f. available f + length (view next'.queued)) free
                ∙ ap (λ q. available s.stream.free + length (view q)) queued))
          o)

  -- A device as it starts: all buffers free, nothing queued, no frame.
  pub record IsInitial (format : ℕ) (s : System pool queue udp) : Type 0 where
    pub fresh : s.generator ≡ configure format new_generator
    pub all_free : available s.stream.free ≡ frame_count
    pub none_queued : s.stream.queued ≡ queue.new

  IsInitial-Sound : (len format : ℕ) (s : System pool queue udp) → IsInitial format s → Sound len s
  unfolding configure new_generator
  IsInitial-Sound len format s i = record {
    balanced = omega (
      arith,
      i.all_free,
      ap (λ q. length (view q)) i.none_queued,
      ap length ql.view-new,
      ap (λ (g : FrameGenerator). held g.current_frame) i.fresh,
    );
    filling =
        subst (λ (g : FrameGenerator). Filling len g.format g.sequence_number g.current_frame)
          (sym i.fresh) tt;
    word =
        subst (λ (g : FrameGenerator). g.sequence_number < 4294967296) (sym i.fresh) (omega arith);
  }

  pub Reach-Sound :
      (len format : ℕ)
      → header_size + len ≤ frame_size
      → (s : System pool queue udp) {t : System pool queue udp} → IsInitial format s
      → Reach udp ql len s t
      → Sound len t
  Reach-Sound len format fits s i here = IsInitial-Sound len format s i
  Reach-Sound len format fits s i (then r st) =
      Step-Sound len fits st (Reach-Sound len format fits s i r)

  -- For batches of one length that fits a frame after the header, over a pool and a queue with
  -- their laws and a network whose close never fails: from a fresh device, after any interleaving
  -- of batches, stream rounds and changes of the remote, adding the next batch of that length does
  -- not panic, advances the sequence number by one modulo 2^32, keeps the format, and leaves every
  -- buffer free, queued or being filled, with a frame being filled that has room for another batch
  -- and whose header number plus its count of batches is the sequence number.
  pub Reach-Adds :
      (len format : ℕ) (s : System pool queue udp) {t : System pool queue udp} (f : Batch)
      (bytes : List ℕ)
      → header_size + len ≤ frame_size
      → IsInitial format s
      → Reach udp ql len s t
      → length bytes ≡ len
      → Writes f bytes
      → Adds pl ql len f t.generator t.stream.free t.stream.queued
  Reach-Adds len format s {t} f bytes fits i r l writes =
      add-Adds pl ql len f bytes t.generator t.stream.free t.stream.queued l writes fits
        (Reach-Sound len format fits s i r)
