-- ===== src/Net/DataStream.antt =====
-- src/net/data_stream.rs: batches of samples are collected in frames, which are queued and sent
-- over UDP. The pool of frame buffers and the queue (heapless) and the network stack are parameters.
-- `none` is a panic.
pub mod Transmit
pub mod Contract
pub mod Frames
pub mod Ownership
pub mod Room
pub mod Pieces
pub mod Tracking
pub mod System
pub mod Tests
use stabilizer.Prelude.{
  ℕ, suc, ◌+◌, ◌*◌, ◌-◌, ltb, leb, if◌then◌else◌, Bool, true, false, List, [], ◌∷◌, ◌++◌, map,
  Option, none, some, length, take, drop, set, replicate, u8, u32, le16, le32,
}
use stabilizer.Prelude.Results.{◌>>=◌}
use mathlib.Core.Option

abbrev pub magic : ℕ
magic = 0x057b

abbrev pub header_size : ℕ
header_size = 8

abbrev pub frame_count : ℕ
frame_count = 4

abbrev pub frame_size : ℕ
frame_size = 1500 - 40 - 8

abbrev pub frame_queue_size : ℕ
frame_queue_size = frame_count * 2

-- A byte that may not be initialised, `MaybeUninit<u8>`.
abbrev pub Cell : Type 0
Cell = Option ℕ

pub data StreamFormat : Type 0 where
  unknown adc_dac_data fls : StreamFormat

abbrev pub format_id : StreamFormat → ℕ
format_id unknown = 0
format_id adc_dac_data = 1
format_id fls = 2

pub record StreamFrame : Type 0 where
  pub buffer : List Cell
  pub offset : ℕ
  pub batches : ℕ

-- The header's bytes over the first cells of the buffer, as many as there are: `zip`.
unfoldable pub write_over : List ℕ → List Cell → List Cell
write_over [] buffer = buffer
write_over (b ∷ bytes) [] = []
write_over (b ∷ bytes) (c ∷ buffer) = some b ∷ write_over bytes buffer

abbrev pub header : ℕ → ℕ → List ℕ
header format sequence = le16 magic ++ ((format ∷ 0 ∷ []) ++ le32 sequence)

-- `StreamFrame::new`.
unfoldable pub new_frame : List Cell → ℕ → ℕ → StreamFrame
unfolding write_over
new_frame buffer format sequence = record {
  buffer = write_over (header format sequence) buffer;
  offset = header_size;
  batches = 0;
}

-- What a client passes to `add`: it may write into the slice that it is given, and returns a count.
abbrev pub Batch : Type 0
Batch = List Cell → List Cell × ℕ

-- The frame and the count. A slice that begins past the end panics; `batches` is a `u8`.
unfoldable pub add_batch : Batch → StreamFrame → Option (StreamFrame × ℕ)
add_batch f frame =
    if leb frame.offset (length frame.buffer)
    then (let (slice, len) = f (drop frame.offset frame.buffer) in
        some (
          record {
            buffer = take frame.offset frame.buffer ++ slice;
            offset = frame.offset + len;
            batches = u8 (frame.batches + 1);
          },
          len,
        ))
    else none

unfoldable pub is_full : ℕ → StreamFrame → Bool
is_full len frame = ltb (length frame.buffer) (frame.offset + len)

-- The frame with its count of batches, and the bytes to send.
unfoldable pub finish : StreamFrame → StreamFrame × List Cell
finish frame =
    let buffer = set frame.buffer 3 (some frame.batches) in
    (record frame { buffer = buffer }, take frame.offset buffer)

-- The pool of buffers and the queue of frames, as far as the code uses them.
pub record Pool : Type 1 where
  pub State : Type 0
  pub alloc : State → Option State
  pub release : State → State

pub record Queue (A : Type 0) : Type 1 where
  pub State : Type 0
  pub new : State
  pub enqueue : A → State → Option State
  pub dequeue : State → Option (A × State)

pub record FrameGenerator : Type 0 where
  pub current_frame : Option StreamFrame
  pub sequence_number : ℕ
  pub format : ℕ

-- `FrameGenerator::new`.
unfoldable pub new_generator : FrameGenerator
new_generator = record { current_frame = none; sequence_number = 0; format = format_id unknown }

unfoldable pub configure : ℕ → FrameGenerator → FrameGenerator
configure format g = record g { format = format }

-- A frame that is full goes to the queue, of which a refusal panics.
queue_if_full :
    {P Q : Type 0}
    → (StreamFrame → Q → Option Q)
    → ℕ
    → StreamFrame
    → FrameGenerator
    → P
    → Q
    → Option (FrameGenerator × P × Q)
queue_if_full enqueue len frame g free queued =
    if is_full len frame
    then (do queued ← enqueue frame queued; some (record g { current_frame = none }, free, queued))
    else some (record g { current_frame = some frame }, free, queued)

module _ (pool : Pool) (queue : Queue StreamFrame) where
  -- The current frame, or a new one if the pool has a buffer.
  current_or_new :
      FrameGenerator → ℕ → pool.State → Option StreamFrame → Option (StreamFrame × pool.State)
  current_or_new g sequence free (some frame) = some (frame, free)
  current_or_new g sequence free none =
      Option.map (λ rest. (new_frame (replicate frame_size none) g.format sequence, rest))
        (pool.alloc free)

  add_to :
      Batch
      → FrameGenerator
      → pool.State
      → queue.State
      → Option (StreamFrame × pool.State)
      → Option (FrameGenerator × pool.State × queue.State)
  add_to f g free queued none = some (g, free, queued)
  add_to f g free queued (some (frame, rest)) = do
    (frame, len) ← add_batch f frame
    queue_if_full queue.enqueue len frame g rest queued

  -- `add`: the generator, and the pool and the queue that it shares with the stream.
  unfoldable pub add :
      Batch
      → FrameGenerator
      → pool.State
      → queue.State
      → Option (FrameGenerator × pool.State × queue.State)
  unfolding current_or_new add_to queue_if_full
  add f g free queued =
      let sequence = g.sequence_number in
      let g = record g { sequence_number = u32 (sequence + 1) } in
      add_to f g free queued (current_or_new g sequence free g.current_frame)
