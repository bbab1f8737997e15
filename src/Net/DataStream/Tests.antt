-- ===== src/Net/DataStream/Tests.antt =====
-- A pool of counted buffers, a bounded list as the queue and a network without effects meet the
-- assumptions; the theorems run over them.
use stabilizer.Prelude.{
  ℕ, zero, suc, ◌≡◌, ◌<◌, refl, arith, true, List, [], ◌∷◌, ◌++◌, Option, some, none, length,
  replicate, if◌then◌else◌, ltb,
}
use stabilizer.Net.DataStream.{
  Pool, Queue, StreamFrame, frame_size, new_generator, configure, new_frame, finish,
}
use stabilizer.Net.DataStream.Contract.{PoolLaws, QueueLaws}
use stabilizer.Net.DataStream.Frames.{copies, cells, add_batches, packet-add_batches}
use stabilizer.Net.DataStream.Ownership.{Adds}
use stabilizer.Net.DataStream.Transmit.{UdpStack, default_target, sent, process}
use stabilizer.Net.DataStream.Transmit.Delivery.{Delivers, process-Delivers}
use stabilizer.Net.DataStream.System.{System, here, IsInitial, Reach-Adds}

unfoldable pub lend : ℕ → Option ℕ
lend zero = none
lend (suc n) = some n

abbrev pub counted : Pool
counted = record { State = ℕ; alloc = lend; release = λ n. suc n }

pub lend-some : (n : ℕ) → 0 < n → (m : ℕ) × (lend n ≡ some m) × (n ≡ suc m)
unfolding lend
lend-some zero h = absurd (omega arith)
lend-some (suc n) h = (n, refl, refl)

pub lend-none : (n : ℕ) → n ≡ 0 → lend n ≡ none
unfolding lend
lend-none zero h = refl
lend-none (suc n) h = absurd (omega arith)

abbrev pub counted_laws : PoolLaws counted
counted_laws = record {
  available = λ n. n;
  alloc_some = lend-some;
  alloc_none = lend-none;
  available-release = λ n. refl;
}

unfoldable pub push : StreamFrame → List StreamFrame → Option (List StreamFrame)
push frame frames = if ltb (length frames) 7 then some (frames ++ frame ∷ []) else none

unfoldable pub pop : List StreamFrame → Option (StreamFrame × List StreamFrame)
pop [] = none
pop (frame ∷ frames) = some (frame, frames)

abbrev pub bounded : Queue StreamFrame
bounded = record { State = List StreamFrame; new = []; enqueue = push; dequeue = pop }

pub push-some :
    (frame : StreamFrame) (frames : List StreamFrame)
    → length frames < 7
    → (t : List StreamFrame) × (push frame frames ≡ some t) × (t ≡ frames ++ frame ∷ [])
unfolding push
push-some frame frames h = (frames ++ frame ∷ [], ground arith, refl)

pub pop-none : (frames : List StreamFrame) → frames ≡ [] → pop frames ≡ none
unfolding pop
pop-none [] h = refl
pop-none (f ∷ frames) h = cc

pub pop-some :
    (frames : List StreamFrame) (frame : StreamFrame) (rest : List StreamFrame)
    → frames ≡ frame ∷ rest
    → (t : List StreamFrame) × (pop frames ≡ some (frame, t)) × (t ≡ rest)
unfolding pop
pop-some [] frame rest h = cc
pop-some (f ∷ frames) frame rest h = (frames, cc, cc)

abbrev pub bounded_laws : QueueLaws bounded
bounded_laws = record {
  view = λ frames. frames;
  capacity = 7;
  view-new = refl;
  enqueue_some = push-some;
  dequeue_none = pop-none;
  dequeue_some = pop-some;
  enough = omega arith;
}

-- Counts the calls; every call succeeds.
abbrev quiet : UdpStack
quiet = record {
  State = ℕ;
  Socket = Unit {0};
  socket = λ n. (suc n, some tt);
  connect = λ socket target n. (suc n, socket, true);
  send = λ socket bytes n. (suc n, socket, sent);
  close = λ socket n. (suc n, true);
}

quiet_closes : (socket : Unit {0}) (n : ℕ) → (quiet.close socket n).1 ≡ true
quiet_closes socket n = refl

abbrev device : System counted bounded quiet
device = record {
  generator = configure 1 new_generator;
  stream = record { stack = 0; socket = none; remote = default_target; free = 4; queued = [] };
}

abbrev samples : List ℕ
samples = replicate 64 7

packet-add_batches_example :
    (frame : StreamFrame) × (add_batches
        (samples ∷ samples ∷ [])
        (new_frame (replicate frame_size none) 1 5)
      ≡ some frame)
    × ((finish frame).1
        ≡ cells (
            (0x7b ∷ 0x05 ∷ [])
            ++ ((1 ∷ 2 ∷ []) ++ ((5 ∷ 0 ∷ 0 ∷ 0 ∷ []) ++ (samples ++ (samples ++ []))))))
packet-add_batches_example = packet-add_batches 1 5 (samples ∷ samples ∷ []) (omega arith)

device-IsInitial : IsInitial counted_laws bounded_laws quiet_closes 1 device
device-IsInitial = record { fresh = refl; all_free = refl; none_queued = refl }

Reach-Adds_example :
    Adds counted_laws bounded_laws 64
      (copies samples)
      device.generator
      device.stream.free
      device.stream.queued
Reach-Adds_example =
    Reach-Adds counted_laws bounded_laws quiet_closes 64 1 device (copies samples) samples
      (omega arith) device-IsInitial here refl (λ slice room. refl)

process-Delivers_example :
    Delivers quiet counted_laws bounded_laws quiet_closes device.stream
      (process counted bounded quiet 1 device.stream)
process-Delivers_example =
    process-Delivers quiet counted_laws bounded_laws quiet_closes 1 device.stream (omega arith)
