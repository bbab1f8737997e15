-- ===== src/Pounder/Qspi/Tests.antt =====
-- A peripheral that records its transfers meets the interface; the theorems run over it.
use stabilizer.Prelude.{ℕ, ◌≡◌, refl, arith, true, false, List, [], ◌∷◌, replicate}
use stabilizer.Prelude.Results.{ok, err}
use stabilizer.Ad9959.{single_bit_two_wire, four_bit_serial}
use stabilizer.Pounder.Qspi.{QspiDriver, QspiInterface, invalid_state, write, start_stream}
use stabilizer.Pounder.Qspi.Access.{SendsBits, write-SendsBits, write-start_stream}

abbrev recorder : QspiDriver
recorder = record {
  State = List (List ℕ);
  Fault = Unit {0};
  configure_four_bit = λ log. (log, ok tt);
  is_busy = λ log. (log, ok tt);
  begin_stream = λ log. log;
  write = λ addr bytes log. ((addr ∷ bytes) ∷ log, ok tt);
  read = λ addr len log. (log, ok (replicate len 0));
}

abbrev fresh : QspiInterface recorder
fresh = record { peripheral = []; mode = single_bit_two_wire; streaming = false }

write-SendsBits_example : SendsBits recorder 0x05 (0xf0 ∷ []) fresh
write-SendsBits_example =
    write-SendsBits recorder 0x05 (0xf0 ∷ []) fresh refl (omega arith) (omega arith) (omega arith)

abbrev fast : QspiInterface recorder
fast = record { peripheral = []; mode = four_bit_serial; streaming = false }

abbrev streams : QspiInterface recorder
streams = record { peripheral = []; mode = four_bit_serial; streaming = true }

fast-start_stream : start_stream recorder fast ≡ (streams, ok tt)
unfolding start_stream
fast-start_stream = refl

write-start_stream_example : write recorder 4 (1 ∷ []) streams ≡ (streams, err invalid_state)
write-start_stream_example =
    write-start_stream recorder 4 (1 ∷ []) fast streams fast-start_stream refl (omega arith)
