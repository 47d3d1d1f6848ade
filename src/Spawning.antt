-- ===== src/Spawning.antt =====
-- How a session's process is started: `spawn` of src-tauri/src/alayacore.rs as the command that it
-- builds, and the spawn arguments that src-tauri/src/dirs.rs keeps next to a session.
use alayaface.Prelude.{
  ℕ, ◌≡◌, not, ◌&&◌, Option, none, some, List, [], ◌∷◌, ◌++◌, Text, String, codes, contains, any,
  is_empty, ltb, if◌then◌else◌, Result, ok, err,
}
use alayaface.Chars.{decimal}
use alayaface.Settings.{ℤ, pos, negsuc, is_level}
use alayaface.Dirs.Paths.{FilePath, is_rooted, join, parse_path}

pub record SpawnArgs : Type 0 where
  pub tool_confirm : Text
  pub builtin_tools : Option Text
  pub system_prompt : Text
  pub reasoning_level : Option ℤ
  pub work_dir : Text
  pub preset : Text

-- `SpawnArgs::default()`
abbrev pub no_args : SpawnArgs
no_args = record {
  tool_confirm = [];
  builtin_tools = none;
  system_prompt = [];
  reasoning_level = none;
  work_dir = [];
  preset = [];
}

-- What serde does for the spawn arguments.
pub record SpawnSerde : Type 0 where
  pub args_of : Text → Option SpawnArgs
  pub to_string_pretty : SpawnArgs → Text
  pub args_of-to_string_pretty : (a : SpawnArgs) → args_of (to_string_pretty a) ≡ some a

module _ (serde : SpawnSerde) where
  -- The write is atomic, and answers with what it is given here: the file after it.
  unfoldable pub write_spawn_args : Result Text (Unit {0}) → SpawnArgs → Option Text → Option Text
  write_spawn_args (ok done) args file = some (serde.to_string_pretty args)
  write_spawn_args (err e) args file = file

  unfoldable pub read_spawn_args : Option Text → SpawnArgs
  read_spawn_args none = no_args
  read_spawn_args (some text) = elim (serde.args_of text) [
    | none ↦ no_args
    | some args ↦
        if not (is_empty args.work_dir) && not (is_rooted args.work_dir)
        then record args { work_dir = [] }
        else args
  ]

-- the command that starts the process; `search_path` is `none` where PATH is inherited
pub record Launch : Type 0 where
  pub binary : Text
  pub args : List Text
  pub current_dir : Option Text
  pub search_path : Option (List FilePath)

-- `--flag value` and `--flag=value`, left out without a value
abbrev pub two_args : String → Text → List Text
two_args flag value = if is_empty value then [] else codes flag ∷ value ∷ []

abbrev pub one_arg : String → Text → List Text
one_arg flag value = if is_empty value then [] else (codes flag ++ value) ∷ []

abbrev pub list_arg : Option Text → List Text
list_arg none = []
list_arg (some tools) = (codes "--builtin-tools=" ++ tools) ∷ []

abbrev pub level_arg : ℤ → List Text
level_arg (pos n) = if is_level (pos n) then (codes "--reasoning-level=" ++ decimal n) ∷ [] else []
level_arg (negsuc n) = []

unfoldable pub drop_last : List Text → List Text
drop_last [] = []
drop_last (w ∷ []) = []
drop_last (w ∷ v ∷ ws) = w ∷ drop_last (v ∷ ws)

-- `Path::parent`
unfoldable pub parent : FilePath → Option FilePath
unfolding drop_last
parent path =
    if is_empty path.parts then none else some record path { parts = drop_last path.parts }

-- `file_len` is the length of a file that exists; `current` are the directories of PATH. `join_paths`
-- refuses a directory with the separator in its name.
unfoldable pub prepend_rg_to_path :
    (FilePath → Option ℕ) → List FilePath → Text → Option (List FilePath)
unfolding parent parse_path join
prepend_rg_to_path file_len current binary = elim (parent (parse_path binary)) [
  | none ↦ none
  | some dir ↦
      if not dir.is_absolute && is_empty dir.parts
      then none
      else elim (file_len (join dir (codes "rg"))) [
        | none ↦ none
        | some len ↦
            if ltb 0 len && not (any (contains b':') dir.parts) then some (dir ∷ current) else none
      ]
]

unfoldable pub spawn :
    (FilePath → Option ℕ)
    → List FilePath
    → Text
    → Text
    → Text
    → SpawnArgs
    → ℤ
    → Option Text
    → Launch
unfolding prepend_rg_to_path decimal is_level
spawn file_len current binary config_path session_path a level work_dir = record {
  binary = binary;
  args =
      codes "--rawio" ∷ two_args "--config-path" config_path
      ++ two_args "--session" session_path
      ++ one_arg "--tool-confirm=" a.tool_confirm
      ++ list_arg a.builtin_tools
      ++ one_arg "--system=" a.system_prompt
      ++ level_arg level;
  current_dir = work_dir;
  search_path = prepend_rg_to_path file_len current binary;
}
