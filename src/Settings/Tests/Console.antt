-- ===== src/Settings/Tests/Console.antt =====
-- A serial port with chunks of input, of which each byte sets the first number.
use stabilizer.Prelude.{
  ℕ, ◌≡◌, ◌⊎◌, refl, arith, true, false, Bool, List, [], ◌∷◌, none, some, get_or,
}
use stabilizer.Prelude.Results.{Result, ok}
use stabilizer.Settings.{Bytes, set_done, Tree, Platform, Session, handle_set, set_result}
use stabilizer.Settings.Keeps.{Leaves}
use stabilizer.Settings.Runner.{Input, poll}
use stabilizer.Settings.Runner.Draining.{is_waiting, Script, IsHandler, poll-Drains}
use stabilizer.Settings.Runner.Notices.{poll-Notices}
use stabilizer.Settings.Menu.{
  Action, called, wrote, get, set, store, platform_item, act_all, act, call, run, command_of,
}
use stabilizer.Settings.Menu.Notices.{FailedSets}
use stabilizer.Settings.Menu.Reads.{only_reads, act_all-Leaves}
use stabilizer.Settings.Tests.{tree, platform, session}

abbrev reading : List (Action tree platform)
reading =
    called store (λ a. some none)
    ∷ wrote (λ k. some [])
    ∷ called get (λ a. some (some (1 ∷ [])))
    ∷ called platform_item (λ a. some (some (5 ∷ [])))
    ∷ []

act_all-Leaves_example : Leaves tree platform session (act_all tree platform reading session)
unfolding only_reads
act_all-Leaves_example = act_all-Leaves tree platform reading session refl

unfoldable pub pop : List Bytes → List Bytes × Bytes
pop [] = ([], [])
pop (chunk ∷ rest) = (rest, chunk)

abbrev pub serial : Platform
serial = record {
  State = List Bytes;
  Fault = Unit {0};
  fetch = λ len key s. (s, ok none);
  store = λ len key value s. (s, ok tt);
  clear = λ len key s. (s, ok tt);
  cmd = λ key s. s;
  say = λ message s. some s;
  read_ready = λ s. (s, ok (is_waiting s));
  read = λ len s. ((pop s).0, ok (pop s).1);
}

popped :
    (s : List Bytes) (chunk : Bytes) (rest : List Bytes)
    → s ≡ chunk ∷ rest
    → (t : List Bytes) × (◌≡◌ {A = List Bytes × Result (Unit {0}) Bytes}
        ((pop s).0, ok (pop s).1)
        (t, ok chunk))
      × (t ≡ rest)
unfolding pop
popped s chunk rest h = (rest, rw h refl, refl)

abbrev script : Script serial
script = record {
  chunks = λ s. s;
  ready_lem = λ s. (s, refl, refl);
  read_lem = λ s chunk rest h. popped s chunk rest h;
}

-- The tree of which a set succeeds.
abbrev pub setting : Tree
setting = record tree { set_json = λ key value t. ((get_or value 0 0, t.1), set_done) }

abbrev pub typing : ℕ → List (Action setting serial)
typing b = called set (λ a. some (some (b ∷ []))) ∷ []

abbrev pub input : Input setting serial
input b s = act_all setting serial (typing b) s

abbrev pub typed : Session setting serial
typed = record {
  platform_state = (1 ∷ 2 ∷ []) ∷ (3 ∷ []) ∷ [];
  buffer_len = 64;
  updated = false;
  settings = (3, 4);
}

input-IsHandler : IsHandler setting serial script input
unfolding act_all act call run command_of handle_set set_result
input-IsHandler b s = (_, refl, refl)

poll-Drains_example :
    (t : Session setting serial) × (poll setting serial 3 input typed ≡ some (t, ok t.updated))
    × (t.platform_state ≡ [])
poll-Drains_example = poll-Drains setting serial script 3 input typed input-IsHandler (omega arith)

poll-Notices_example :
    (t : Session setting serial) × (flag : Bool) × (poll setting serial 3 input typed
      ≡ some (t, ok flag))
    × ((flag ≡ true) ⊎ FailedSets setting serial (3, 4) t.settings)
poll-Notices_example =
    poll-Notices setting serial script 3 input typed input-IsHandler (λ b s t h. (typing b, h))
      (omega arith)
