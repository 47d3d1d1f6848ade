-- ===== src/Sessions/Starting.antt =====
-- What the commands of src-tauri/src/commands/sessions.rs have in common: the directory of a session,
-- what it is started with, `create` of src-tauri/src/session.rs, and the loop that removes a directory.
use alayaface.Prelude.{
  Bool, true, false, Option, none, some, List, [], ◌∷◌, ◌++◌, Text, codes, is_empty, if◌then◌else◌,
  Result, ok, err, map_err, ◌>>=◌,
}
use alayaface.Json.{Serde}
use alayaface.Dirs.Paths.{FilePath, join, path_text}
use alayaface.Dirs.Presets.{config_message, resolve_config_dir}
use alayaface.Sending.{resolve_binary}
use alayaface.Settings.{
  ℤ, pos, GlobalSettings, SettingsSerde, is_level, normalize_reasoning_level, read_settings_from,
  effective_tool_confirm, effective_builtin_tools, effective_system_prompt,
  effective_reasoning_level,
}
use alayaface.Spawning.{SpawnArgs, SpawnSerde, Launch, spawn, parent, write_spawn_args}
use alayaface.Sessions.{
  State, Os, Place, Overrides, or_empty, ok_or, given, without, spawn_file, place_of,
}

-- What a session is started with, where the client does not say.
pub record Fallback : Type 0 where
  pub fallback_confirm : Text
  pub fallback_tools : Option Text
  pub fallback_prompt : Text
  pub fallback_level : ℤ
  pub fallback_dir : Option Text

-- What a session is started with.
pub record Envelope : Type 0 where
  pub spawn_args : SpawnArgs
  pub level : ℤ
  pub child_dir : Option Text

-- `filter(|s| !s.is_empty())`
abbrev pub nonempty : Text → Option Text
nonempty t = if is_empty t then none else some t

abbrev pub or_given : Option Text → Text → Text
or_given explicit fallback = elim (given explicit) [ none ↦ fallback | some v ↦ v ]

unfoldable pub inherited_reasoning_level : Option ℤ → ℤ
unfolding is_level
inherited_reasoning_level none = pos 1
inherited_reasoning_level (some level) = if is_level level then level else pos 1

abbrev pub session_file : FilePath → FilePath
session_file dir = join dir (codes "session.alaya")

abbrev pub config_dir : FilePath → FilePath
config_dir dir = join dir (codes "config")

-- one turn of the loop of `delete_session_dir`: what it sees, and how the removal ends
pub record Attempt : Type 0 where
  pub gone_before : Bool
  pub remove_err : Option Text
  pub gone_after : Bool

-- The loop, with the turns that are left: whether the directory is gone, and the answer.
unfoldable pub delete_loop : FilePath → List Attempt → Bool × Result Text (Unit {0})
delete_loop dir [] = (false, ok tt)
delete_loop dir (a ∷ rest) =
    let later = delete_loop dir rest in
    if a.gone_before then (true, ok tt) else elim a.remove_err [
      | none ↦ if a.gone_after then (true, ok tt) else later
      | some e ↦
          if is_empty rest
          then (false, err (codes "Cannot delete " ++ path_text dir ++ codes ": " ++ e))
          else later
    ]

unfoldable pub source_fallback : SpawnArgs → Fallback
unfolding inherited_reasoning_level
source_fallback a = record {
  fallback_confirm = a.tool_confirm;
  fallback_tools = a.builtin_tools;
  fallback_prompt = a.system_prompt;
  fallback_level = inherited_reasoning_level a.reasoning_level;
  fallback_dir = nonempty a.work_dir;
}

unfoldable pub level_of : Overrides → Fallback → Result Text ℤ
unfolding normalize_reasoning_level
level_of o f = elim o.reasoning_level [
  | none ↦ ok f.fallback_level
  | some raw ↦ normalize_reasoning_level raw
]

abbrev pub envelope_of : Overrides → Fallback → Text → ℤ → Option Text → Envelope
envelope_of o f preset level dir = record {
  spawn_args = record {
    tool_confirm = or_given o.tool_confirm f.fallback_confirm;
    builtin_tools = elim o.builtin_tools [ none ↦ f.fallback_tools | some v ↦ some v ];
    system_prompt = or_given o.system_prompt f.fallback_prompt;
    reasoning_level = some level;
    work_dir = or_empty dir;
    preset = preset;
  };
  level = level;
  child_dir = dir;
}

module _ (os : Os) where
  -- `session::create`
  unfoldable pub create : Text → Text → FilePath → Launch → State → State × Result Text Text
  unfolding without
  create id owner dir launch s = elim (os.started launch) [
    | err e ↦ (s, err (codes "Failed to start alayacore: " ++ e))
    | ok done ↦ (
      record s {
        sessions = (id, record { session_dir = dir; owner = owner }) ∷ without id s.sessions;
        launched = launch ∷ s.launched;
        announced = id ∷ s.announced;
      },
      ok id,
    )
  ]

  unfoldable pub create_session_dir_in :
      FilePath → Text → Text → State → State × Result Text FilePath
  unfolding resolve_config_dir join
  create_session_dir_in base id preset s =
      let dir = join base id in
      let made = record s { dirs = dir ∷ s.dirs } in
      elim os.ensured [
        | err e ↦ (s, err e)
        | ok done ↦ elim (resolve_config_dir os.exists os.presets_root preset) [
          | err e ↦ (s, err (config_message e))
          | ok template ↦ elim os.copied [
            | ok done' ↦ (made, ok dir)
            | err (left, e) ↦ (if left then made else s, err e)
          ]
        ]
      ]

  -- `create_session_dir_nested` for the session of a plan's node, else `create_session_dir_from`
  unfoldable pub create_session_dir : Place → Text → State → State × Result Text FilePath
  unfolding given place_of parent create_session_dir_in
  create_session_dir place preset s = elim (given place.plan_id) [
    | none ↦ create_session_dir_in os.sessions_root os.new_id preset s
    | some pid ↦ elim (place_of os.sessions_root place os.new_id) [
      | err e ↦ (s, err e)
      | ok dir ↦ elim (parent dir) [
        | none ↦ create_session_dir_in os.sessions_root os.new_id preset s
        | some base ↦ create_session_dir_in base os.new_id preset s
      ]
    ]
  ]

  unfoldable pub make_dir : Text → Result Text (Option Text)
  make_dir d = elim (os.create_dir_all d) [
    | err e ↦ err (codes "Cannot create work dir " ++ d ++ codes ": " ++ e)
    | ok done ↦ ok (some d)
  ]

  unfoldable pub child_dir_of : Overrides → Fallback → Result Text (Option Text)
  unfolding given make_dir
  child_dir_of o f = elim (given o.work_dir) [ none ↦ ok f.fallback_dir | some d ↦ make_dir d ]

  unfoldable pub envelope : Overrides → Fallback → Text → Result Text Envelope
  unfolding level_of child_dir_of
  envelope o f preset = do
    level ← level_of o f
    dir ← child_dir_of o f
    ok (envelope_of o f preset level dir)

  -- the process of a session in a directory
  unfoldable pub launch_in : Text → Text → FilePath → Envelope → Launch
  unfolding join path_text spawn
  launch_in binary_path config_path dir e =
      spawn os.file_len os.search_path (resolve_binary os.found_binary binary_path) config_path
        (path_text (session_file dir)) e.spawn_args e.level e.child_dir

  module _ (serde : Serde) (files : SettingsSerde serde.Value) where
    unfoldable pub read_preset_settings : Text → Result Text GlobalSettings
    unfolding resolve_config_dir read_settings_from
    read_preset_settings preset = do
      dir ← map_err config_message (resolve_config_dir os.exists os.presets_root preset)
      read_settings_from serde files (os.settings_file dir)

    unfoldable pub preset_fallback : Text → Fallback
    unfolding read_preset_settings effective_tool_confirm effective_builtin_tools
        effective_system_prompt effective_reasoning_level
    preset_fallback preset =
        let read = read_preset_settings preset in
        record {
          fallback_confirm = ok_or [] (effective_tool_confirm read);
          fallback_tools = nonempty (ok_or [] (effective_builtin_tools read));
          fallback_prompt = ok_or [] (effective_system_prompt read);
          fallback_level = ok_or (pos 1) (effective_reasoning_level read);
          fallback_dir = none;
        }

  module _ (spawns : SpawnSerde) where
    unfoldable pub persist : FilePath → SpawnArgs → State → State
    unfolding spawn_file write_spawn_args
    persist dir args s =
        elim (write_spawn_args spawns os.written args (spawn_file dir s.spawn_files)) [
          | none ↦ s
          | some text ↦ record s { spawn_files = (dir, text) ∷ s.spawn_files }
        ]

    -- the end of `create_session` and `fork_session`: the arguments are kept, then the process starts
    unfoldable pub start :
        Text → Text → Text → FilePath → Envelope → State → State × Result Text Text
    unfolding create launch_in persist
    start binary_path config_path owner dir e s =
        create os.new_id owner dir (launch_in binary_path config_path dir e)
          (persist dir e.spawn_args s)
