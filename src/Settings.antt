-- ===== src/Settings.antt =====
-- serial-settings/src/lib.rs: the settings menu. The settings tree of miniconf, the checksum of
-- yafnv and the platform are parameters; `none` is the panic of an `unwrap`. Messages stand for
-- their texts, and log lines are left out.
pub mod Get
pub mod Clear
pub mod Store
pub mod Menu
pub mod Runner
pub mod Keeps
pub mod BestEffort
pub mod Persistent
pub mod Tests
use stabilizer.Prelude.{ℕ, Bool, true, false, List, [], ◌∷◌, Option, none, some}
use stabilizer.Prelude.Results.{Result, ok, err, ◌>>=◌}

-- A path, and a value in its encoding.
abbrev pub Bytes : Type 0
Bytes = List ℕ

-- Results of access by key.
pub data Got : Type 0 where
  absent get_failed : Got
  got : Bytes → Got

pub data Set : Type 0 where
  set_absent set_failed set_done : Set

-- A leaf, or the depth at which its path does not fit.
pub data Node : Type 0 where
  leaf : Bytes → Node
  too_deep : ℕ → Node

pub data Message : Type 0 where
  not_located get_error cannot_get default_error set_error cleared_current : Bytes → Message
  fetch_error cleared_stored clear_error stored store_error : Bytes → Message
  no_space : ℕ → Message
  current default_value stored_value : Bytes → Bytes → Message
  default_absent default_serialize_error same_default not_stored stored_fetch_error : Message
  stored_deserialize_error stored_serialize_error same_stored end_of_line : Message
  may_need_reboot set_not_stored invalid_value : Message

-- `get` takes the length of the buffer that it serializes into.
pub record Tree : Type 1 where
  pub Settings : Type 0
  pub nodes : List Node
  pub root : Bytes → Option (List Node)
  pub reset : Settings → Settings
  pub get_json : ℕ → Bytes → Settings → Got
  pub get_postcard : ℕ → Bytes → Settings → Got
  pub set_json : Bytes → Bytes → Settings → Settings × Set
  pub set_postcard : Bytes → Bytes → Settings → Settings × Set
  pub checksum : Bytes → ℕ

-- `fetch`, `store` and `clear` take the length of their buffer, `say` is a `write!` of a message
-- whose result is unwrapped.
pub record Platform : Type 1 where
  pub State : Type 0
  pub Fault : Type 0
  pub fetch : ℕ → Bytes → State → State × Result Fault (Option Bytes)
  pub store : ℕ → Bytes → Bytes → State → State × Result Fault (Unit {0})
  pub clear : ℕ → Bytes → State → State × Result Fault (Unit {0})
  pub cmd : Bytes → State → State
  pub say : Message → State → Option State
  pub read_ready : State → State × Result Fault Bool
  pub read : ℕ → State → State × Result Fault Bytes

module _ (tree : Tree) (platform : Platform) where
  -- `Interface` with the settings that the handlers get beside it.
  pub record Session : Type 0 where
    pub platform_state : platform.State
    pub buffer_len : ℕ
    pub updated : Bool
    pub settings : tree.Settings

  abbrev pub say : Message → Session → Option Session
  say message s = do
    p ← platform.say message s.platform_state
    some (record s { platform_state = p })

  -- What is done at a leaf, with the defaults, which serve as scratch space too.
  abbrev pub Visit : Type 0
  Visit = Bytes → tree.Settings → Session → Option (Session × tree.Settings)

  -- An early return from a visit, after a message.
  abbrev pub tell : Message → tree.Settings → Session → Option (Session × tree.Settings)
  tell message defaults s = do s ← say message s; some (s, defaults)

  visit_node : Visit → Node → tree.Settings → Session → Option (Session × tree.Settings)
  visit_node visit (leaf key) defaults s = visit key defaults s
  visit_node visit (too_deep depth) defaults s = tell (no_space depth) defaults s

  unfoldable pub visit_nodes :
      Visit → List Node → tree.Settings → Session → Option (Session × tree.Settings)
  unfolding visit_node
  visit_nodes visit [] defaults s = some (s, defaults)
  visit_nodes visit (node ∷ nodes) defaults s = do
    (s, defaults) ← visit_node visit node defaults s
    visit_nodes visit nodes defaults s

  visit_all : Visit → List Node → Session → Option Session
  unfolding visit_nodes
  visit_all visit nodes s = do (s, _) ← visit_nodes visit nodes (tree.reset s.settings) s; some s

  -- The nodes below a key, if there is one.
  visit_below : Visit → Bytes → Option (List Node) → Session → Option Session
  unfolding visit_all
  visit_below visit key none s = say (not_located key) s
  visit_below visit key (some nodes) s = visit_all visit nodes s

  unfoldable pub iter_root : Option Bytes → Visit → Session → Option Session
  unfolding visit_below visit_all
  iter_root none visit s = visit_all visit tree.nodes s
  iter_root (some key) visit s = visit_below visit key (tree.root key) s

  unfoldable pub set_result : Bytes → tree.Settings × Set → Session → Option Session
  set_result key (t, set_done) s = say set_not_stored (record s { settings = t; updated = true })
  set_result key (t, _) s = say (set_error key) (record s { settings = t })

  unfoldable pub handle_set : Bytes → Bytes → Session → Option Session
  unfolding set_result
  handle_set key value s = set_result key (tree.set_json key value s.settings) s

  unfoldable pub handle_platform : Bytes → Session → Session
  handle_platform key s = record s { platform_state = platform.cmd key s.platform_state }
