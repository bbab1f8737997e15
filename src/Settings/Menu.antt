-- ===== src/Settings/Menu.antt =====
-- serial-settings/src/lib.rs, `Interface::menu` and what its handlers take of their arguments. The
-- crate menu, which reads a line into an item and its arguments, is a parameter: `Arguments` is
-- `menu::argument_finder`, with `none` for its error.
pub mod Notices
pub mod Reads
use stabilizer.Prelude.{Bool, true, false, List, [], ◌∷◌, Option, none, some}
use stabilizer.Prelude.Results.{◌>>=◌}
use stabilizer.Settings.{Bytes, Tree, Platform, Session, handle_set, handle_platform}
use stabilizer.Settings.Get.{handle_get}
use stabilizer.Settings.Clear.{handle_clear}
use stabilizer.Settings.Store.{handle_store}

pub data Argument : Type 0 where
  path_argument value_argument force_argument cmd_argument : Argument

pub data Parameter : Type 0 where
  mandatory optional named : Argument → Parameter

pub data Item : Type 0 where
  get set store clear platform_item : Item

unfoldable pub parameters : Item → List Parameter
parameters get = optional path_argument ∷ []
parameters set = mandatory path_argument ∷ mandatory value_argument ∷ []
parameters store = named force_argument ∷ optional path_argument ∷ []
parameters clear = optional path_argument ∷ []
parameters platform_item = mandatory cmd_argument ∷ []

abbrev pub Arguments : Type 0
Arguments = Argument → Option (Option Bytes)

-- A handler with what it takes of its arguments.
pub data Command : Type 0 where
  get_command clear_command : Option Bytes → Command
  set_command : Bytes → Bytes → Command
  store_command : Option Bytes → Bool → Command
  platform_command : Bytes → Command

abbrev is_given : Option Bytes → Bool
is_given none = false
is_given (some bytes) = true

unfoldable pub command_of : Item → Arguments → Option Command
command_of get arguments = do key ← arguments path_argument; some (get_command key)
command_of set arguments = do
  key ← arguments path_argument
  key ← key
  value ← arguments value_argument
  value ← value
  some (set_command key value)
command_of store arguments = do
  key ← arguments path_argument
  force ← arguments force_argument
  some (store_command key (is_given force))
command_of clear arguments = do key ← arguments path_argument; some (clear_command key)
command_of platform_item arguments = do
  key ← arguments cmd_argument
  key ← key
  some (platform_command key)

module _ (tree : Tree) (platform : Platform) where
  unfoldable pub run : Command → Session tree platform → Option (Session tree platform)
  run (get_command key) s = handle_get tree platform key s
  run (clear_command key) s = handle_clear tree platform key s
  run (set_command key value) s = handle_set tree platform key value s
  run (store_command key force) s = handle_store tree platform key force s
  run (platform_command key) s = some (handle_platform tree platform key s)

  -- The call of the item's handler.
  unfoldable pub call : Item → Arguments → Session tree platform → Option (Session tree platform)
  call item arguments s = do command ← command_of item arguments; run command s

  -- What the crate menu does with the session: it calls handlers, and writes to the interface.
  pub data Action : Type 0 where
    called : Item → Arguments → Action
    wrote : platform.State → Action

  unfoldable pub act : Action → Session tree platform → Option (Session tree platform)
  act (called item arguments) s = call item arguments s
  act (wrote p) s = some (record s { platform_state = p })

  unfoldable pub act_all : List Action → Session tree platform → Option (Session tree platform)
  act_all [] s = some s
  act_all (action ∷ actions) s = do s ← act action s; act_all actions s
