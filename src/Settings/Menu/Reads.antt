-- ===== src/Settings/Menu/Reads.antt =====
-- The items of the menu that change no settings.
use stabilizer.Prelude.{◌≡◌, refl, sym, ap, arith, ◌&&◌, Bool, true, false, List, [], ◌∷◌, some}
use mathlib.Core.Option.{some-injective}
use stabilizer.Prelude.Results.{some_steps}
use stabilizer.Settings.{Tree, Platform, Session, handle_platform}
use stabilizer.Settings.Keeps.{Leaves, Same-trans, some-Same}
use stabilizer.Settings.Get.Reads.{handle_get-Leaves}
use stabilizer.Settings.Store.Reads.{handle_store-Leaves}
use stabilizer.Settings.Menu.{
  Item, get, set, store, clear, platform_item, Arguments, Command, get_command, set_command,
  store_command, clear_command, platform_command, path_argument, force_argument, cmd_argument,
  command_of, run, call, Action, called, wrote, act, act_all,
}

-- The items other than set and clear, and their handlers.
unfoldable pub only_reads : Item → Bool
only_reads set = false
only_reads clear = false
only_reads _ = true

abbrev command_reads : Command → Bool
command_reads (set_command key new) = false
command_reads (clear_command key) = false
command_reads _ = true

command_of-reads :
    (item : Item) (arguments : Arguments) (command : Command)
    → only_reads item ≡ true
    → command_of item arguments ≡ some command
    → command_reads command ≡ true
unfolding only_reads command_of
command_of-reads get arguments command e h =
    let (key, _, k) = some_steps (arguments path_argument) _ command h in
    ap command_reads (sym (some-injective _ _ k))
command_of-reads store arguments command e h =
    let (key, _, k) = some_steps (arguments path_argument) _ command h in
    let (force, _, k) = some_steps (arguments force_argument) _ command k in
    ap command_reads (sym (some-injective _ _ k))
command_of-reads platform_item arguments command e h =
    let (found, _, k) = some_steps (arguments cmd_argument) _ command h in
    let (key, _, k) = some_steps found _ command k in ap command_reads (sym (some-injective _ _ k))
command_of-reads set arguments command e h = absurd (ground arith)
command_of-reads clear arguments command e h = absurd (ground arith)

module _ (tree : Tree) (platform : Platform) where
  run-Leaves :
      (command : Command) (s : Session tree platform)
      → command_reads command ≡ true
      → Leaves tree platform s (run tree platform command s)
  unfolding run handle_platform
  run-Leaves (get_command key) s e t h = handle_get-Leaves tree platform key s t h
  run-Leaves (store_command key force) s e t h = handle_store-Leaves tree platform key force s t h
  run-Leaves (platform_command key) s e t h =
      some-Same tree platform s (record s { platform_state = platform.cmd key s.platform_state }) t
        (refl, refl) h
  run-Leaves (set_command key new) s e t h = absurd (ground arith)
  run-Leaves (clear_command key) s e t h = absurd (ground arith)

  abbrev action_reads : Action tree platform → Bool
  action_reads (called item arguments) = only_reads item
  action_reads (wrote p) = true

  abbrev pub all_read : List (Action tree platform) → Bool
  all_read [] = true
  all_read (action ∷ actions) = action_reads action && all_read actions

  act-Leaves :
      (action : Action tree platform) (s : Session tree platform)
      → action_reads action ≡ true
      → Leaves tree platform s (act tree platform action s)
  unfolding act call
  act-Leaves (called item arguments) s e t h =
      let (command, found, k) =
        some_steps (command_of item arguments) (λ c. run tree platform c s) t h in
      run-Leaves command s (command_of-reads item arguments command e found) t k
  act-Leaves (wrote p) s e t h =
      some-Same tree platform s (record s { platform_state = p }) t (refl, refl) h

  -- For every run of the menu's handlers, without those of set and clear, and of writes to the
  -- interface, with any arguments and from any session: unless it panics, the settings and the
  -- flag of an update are as before.
  pub act_all-Leaves :
      (actions : List (Action tree platform)) (s : Session tree platform)
      → all_read actions ≡ true
      → Leaves tree platform s (act_all tree platform actions s)
  unfolding act_all
  act_all-Leaves [] s e t h = some-Same tree platform s s t (refl, refl) h
  act_all-Leaves (action ∷ actions) s e u h =
      let (t, first, k) = some_steps (act tree platform action s) _ u h in
      let reads : action_reads action ≡ true = ground arith in
      let rest : all_read actions ≡ true = ground arith in
      Same-trans tree platform s t u (act-Leaves action s reads t first)
        (act_all-Leaves actions t rest u k)
