-- ===== src/Settings/Persistent/Commands.antt =====
-- src/settings.rs, the command `platform` of the menu, with src/hardware/platform.rs: the flag in RAM
-- that asks for the bootloader, and the check of it that src/hardware/setup.rs begins with. The
-- texts of the answers are constructors.
use stabilizer.Prelude.{ℕ, ◌≡◌, refl, ap₂, Bool, true, false, List, [], ◌∷◌, ◌==◌}

pub data Command : Type 0 where
  reboot dfu service : Command
  unknown : List ℕ → Command

pub data Line : Type 0 where
  version hardware_revision rustc_version features panic_info : Line
  invalid_command : List ℕ → Line

-- `DFU_REBOOT_FLAG`.
abbrev pub dfu_reboot_flag : ℕ
dfu_reboot_flag = 0xDEADBEEF

-- What a command leads to: an answer on the interface, or a reset with the flag in RAM.
pub data Outcome : Type 0 where
  answered : List Line → ℕ → Outcome
  reset : ℕ → Outcome

abbrev pub start_dfu_reboot : ℕ → Outcome
start_dfu_reboot bootflag = reset dfu_reboot_flag

-- `cmd`, on the flag in RAM.
unfoldable cmd : Command → ℕ → Outcome
cmd reboot bootflag = reset bootflag
cmd dfu bootflag = start_dfu_reboot bootflag
cmd service bootflag =
    answered (version ∷ hardware_revision ∷ rustc_version ∷ features ∷ panic_info ∷ []) bootflag
cmd (unknown name) bootflag = answered (invalid_command name ∷ []) bootflag

-- `dfu_bootflag` clears the flag that it reads.
unfoldable dfu_bootflag : ℕ → ℕ × Bool
dfu_bootflag bootflag = (0, dfu_reboot_flag == bootflag)

-- How the start of `setup` goes on.
data Start : Type 0 where
  bootloader application : Start

abbrev started : Bool → Start
started true = bootloader
started false = application

-- The commands of one run, up to a reset, and the flag that it leaves.
run_commands : List Command → ℕ → ℕ
unfolding cmd
run_commands [] bootflag = bootflag
run_commands (command ∷ commands) bootflag = elim (cmd command bootflag) [
  | answered lines flag ↦ run_commands commands flag
  | reset flag ↦ flag
]

-- The starts after some runs.
starts : List (List Command) → ℕ → List Start
unfolding run_commands dfu_bootflag
starts [] bootflag = []
starts (commands ∷ runs) bootflag =
    let (flag, is_set) = dfu_bootflag (run_commands commands bootflag) in
    started is_set ∷ starts runs flag

-- What a run asks for with its first reset.
abbrev asked : List Command → Start
asked [] = application
asked (dfu ∷ commands) = bootloader
asked (reboot ∷ commands) = application
asked (_ ∷ commands) = asked commands

abbrev all_asked : List (List Command) → List Start
all_asked [] = []
all_asked (commands ∷ runs) = asked commands ∷ all_asked runs

run_commands-asked :
    (commands : List Command) → started (dfu_bootflag (run_commands commands 0)).1 ≡ asked commands
unfolding run_commands dfu_bootflag cmd
run_commands-asked [] = refl
run_commands-asked (reboot ∷ commands) = refl
run_commands-asked (dfu ∷ commands) = refl
run_commands-asked (service ∷ commands) = run_commands-asked commands
run_commands-asked (unknown name ∷ commands) = run_commands-asked commands

-- From a cleared flag, after each of some runs: the bootloader starts if the first reset that a
-- command of the run asked for was `dfu`, and else the application.
starts-asked : (runs : List (List Command)) → starts runs 0 ≡ all_asked runs
unfolding starts dfu_bootflag run_commands
starts-asked [] = refl
starts-asked (commands ∷ runs) =
    ap₂ (λ (s : Start) (l : List Start). s ∷ l) (run_commands-asked commands) (starts-asked runs)
