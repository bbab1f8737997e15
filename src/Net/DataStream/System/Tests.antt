-- ===== src/Net/DataStream/System/Tests.antt =====
-- A run in which a packet goes out: the remote is set, a socket is opened, a batch fills a frame, and
-- a round sends it.
use stabilizer.Prelude.{
  ℕ, ◌≡◌, refl, arith, List, [], ◌∷◌, ◌++◌, Option, some, none, replicate, true,
}
use stabilizer.Net.DataStream.{
  Cell, StreamFrame, FrameGenerator, header, is_full, new_generator, configure, new_frame, add,
  add_batch, finish,
}
use stabilizer.Net.DataStream.Frames.{copies, cells}
use stabilizer.Net.DataStream.Tests.{lend, push, pop, counted, counted_laws, bounded, bounded_laws}
use stabilizer.Net.DataStream.Transmit.{
  UdpStack, StreamTarget, v4, default_target, sent, process, set_remote, open_socket, flush, close,
  same_target,
}
use stabilizer.Net.DataStream.Transmit.Wire.{WireLog}
use stabilizer.Net.DataStream.System.{
  System, Step, batch, round, redirect, Reach, here, then, history, IsInitial,
}
use stabilizer.Net.DataStream.System.Carries.{AreRuns, Reach-AreRuns}

-- A network that keeps what it is given.
abbrev pub keeping : UdpStack
keeping = record {
  State = List (List Cell);
  Socket = Unit {0};
  socket = λ l. (l, some tt);
  connect = λ socket target l. (l, socket, true);
  send = λ socket bytes l. (l ++ bytes ∷ [], socket, sent);
  close = λ socket l. (l, true);
}

abbrev pub keeping_log : WireLog keeping
keeping_log = record {
  log = λ l. l;
  log-send = λ socket bytes l. refl;
  log-socket = λ l. refl;
  log-connect = λ socket target l. refl;
  log-close = λ socket l. refl;
}

pub keeping_closes : (socket : Unit {0}) (l : List (List Cell)) → (keeping.close socket l).1 ≡ true
keeping_closes socket l = refl

abbrev pub host : StreamTarget
host = record { ip = v4 0x0a000001; port = 9293 }

abbrev pub long_batch : List ℕ
long_batch = replicate 1000 7

abbrev pub with_stream :
    FrameGenerator
    → List (List Cell)
    → Option (Unit {0})
    → StreamTarget
    → ℕ
    → List StreamFrame
    → System counted bounded keeping
with_stream g stack socket remote free queued = record {
  generator = g;
  stream = record { stack = stack; socket = socket; remote = remote; free = free; queued = queued };
}

abbrev pub idle : FrameGenerator
idle = record { current_frame = none; sequence_number = 0; format = 1 }

abbrev pub counting : FrameGenerator
counting = record { current_frame = none; sequence_number = 1; format = 1 }

abbrev pub full_frame : StreamFrame
full_frame = record {
  buffer = cells (header 1 0) ++ (cells long_batch ++ replicate 444 none);
  offset = 1008;
  batches = 1;
}

abbrev pub first_packet : List Cell
first_packet = cells ((0x7b ∷ 0x05 ∷ 1 ∷ 1 ∷ 0 ∷ 0 ∷ 0 ∷ 0 ∷ []) ++ long_batch)

abbrev pub booted : System counted bounded keeping
booted = with_stream (configure 1 new_generator) [] none default_target 4 []

abbrev pub done : System counted bounded keeping
done = with_stream counting (first_packet ∷ []) (some tt) host 4 []

pub booted-IsInitial : IsInitial counted_laws bounded_laws keeping_closes 1 booted
booted-IsInitial = record { fresh = refl; all_free = refl; none_queued = refl }

redirected : Step keeping bounded_laws 1000 booted (with_stream idle [] none host 4 [])
unfolding set_remote close same_target configure new_generator
redirected = redirect host _ refl refl

opened_stream :
    Step keeping bounded_laws 1000
      (with_stream idle [] none host 4 [])
      (with_stream idle [] (some tt) host 4 [])
unfolding process open_socket flush pop
opened_stream = round 1 _ (omega arith) refl refl

filled :
    Step keeping bounded_laws 1000
      (with_stream idle [] (some tt) host 4 [])
      (with_stream counting [] (some tt) host 3 (full_frame ∷ []))
unfolding add add_batch new_frame lend is_full push
filled =
    batch (copies long_batch) long_batch counting 3 (full_frame ∷ []) (λ slice room. refl) refl refl
      refl

sends_packet :
    Step keeping bounded_laws 1000 (with_stream counting [] (some tt) host 3 (full_frame ∷ [])) done
unfolding process finish pop
sends_packet = round 2 _ (omega arith) refl refl

whole_run : Reach keeping bounded_laws 1000 booted done
whole_run = then (then (then (then here redirected) opened_stream) filled) sends_packet

Reach-AreRuns_example :
    AreRuns counted_laws bounded_laws keeping_closes keeping_log 1
      (history keeping bounded_laws whole_run)
      (first_packet ∷ [])
Reach-AreRuns_example =
    Reach-AreRuns counted_laws bounded_laws keeping_closes keeping_log 1000 1 booted (omega arith)
      booted-IsInitial refl whole_run
