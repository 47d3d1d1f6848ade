-- ===== src/Sessions/Commands.antt =====
-- The commands of src-tauri/src/commands/sessions.rs that start, resume, fork and delete sessions.
use alayaface.Prelude.{
  not, ◌&&◌, Option, none, some, List, [], ◌∷◌, ◌++◌, Text, codes, is_empty, any, if◌then◌else◌,
  Result, ok, err, map_err, ◌>>=◌, go_on,
}
use alayaface.Json.{Serde}
use alayaface.Dirs.Paths.{FilePath, path_eq, path_text}
use alayaface.Dirs.Presets.{config_message, resolve_config_dir}
use alayaface.Settings.{SettingsSerde}
use alayaface.Versions.{session_file_rejection}
use alayaface.Spawning.{SpawnArgs, SpawnSerde, read_spawn_args}
use alayaface.Sessions.{
  State, Os, Place, Overrides, or_empty, or_balanced, given, get, is_active, spawn_file, close,
  place_of,
}
use alayaface.Sessions.Starting.{
  Fallback, Attempt, session_file, config_dir, delete_loop, create, create_session_dir, make_dir,
  preset_fallback, source_fallback, envelope, launch_in, start,
}

unfoldable pub keep_dirs : FilePath → List FilePath → List FilePath
unfolding path_eq
keep_dirs gone [] = []
keep_dirs gone (d ∷ ds) = let rest = keep_dirs gone ds in if path_eq d gone then rest else d ∷ rest

unfoldable pub keep_files : FilePath → List (FilePath × Text) → List (FilePath × Text)
unfolding path_eq
keep_files gone [] = []
keep_files gone ((d, text) ∷ rest) =
    let left = keep_files gone rest in if path_eq d gone then left else (d, text) ∷ left

-- The directory of a session is gone, with its spawn file.
unfoldable pub remove_dir : FilePath → State → State
unfolding keep_dirs keep_files
remove_dir dir s = record s {
  dirs = keep_dirs dir s.dirs;
  spawn_files = keep_files dir s.spawn_files;
}

-- `delete_session_dir`, with the turns of its loop
unfoldable pub delete_session_dir :
    FilePath → (FilePath → List Attempt) → Place → Text → State → State × Result Text (Unit {0})
unfolding close place_of delete_loop remove_dir
delete_session_dir root turns place id s =
    let closed = (close id s).0 in
    elim (place_of root place id) [
      | err e ↦ (closed, err e)
      | ok dir ↦
          let (gone, answer) = delete_loop dir (turns dir) in
          (if gone then remove_dir dir closed else closed, answer)
    ]

abbrev pub config_of : Text → FilePath → Text
config_of config_path dir = if is_empty config_path then path_text (config_dir dir) else config_path

module _ (os : Os) where
  -- `resume_session` until it gives up the lock on the map of sessions
  unfoldable pub check_dir : FilePath → State → Result Text FilePath
  unfolding path_eq is_active path_text session_file_rejection
  check_dir dir s =
      if not (any (λ d. path_eq d dir) s.dirs)
      then err (codes "Session directory not found: " ++ path_text dir)
      else if not (os.exists (session_file dir))
      then err (codes "Session file not found: " ++ path_text (session_file dir))
      else if not (os.exists (config_dir dir))
      then err (codes "Config directory not found: " ++ path_text (config_dir dir))
      else elim (session_file_rejection os.from_utf8_lossy (os.file_bytes (session_file dir))
          (codes "session.alaya")) [
            | some e ↦ err e
            | none ↦
                if is_active dir s.sessions then err (codes "Session is already active") else ok dir
          ]

  unfoldable pub resume_check : Place → Text → State → Result Text FilePath
  unfolding place_of check_dir
  resume_check place id s = do dir ← place_of os.sessions_root place id; check_dir dir s

  -- `ensure`, and the check of the preset before anything is made
  unfoldable pub preset_ready : Text → Result Text FilePath
  unfolding resolve_config_dir
  preset_ready name = do
    done ← os.ensured
    map_err config_message (resolve_config_dir os.exists os.presets_root name)

  unfoldable pub resume_dir : Option Text → SpawnArgs → Result Text (Option Text)
  unfolding given make_dir
  resume_dir work_dir kept = elim (given work_dir) [
    | some d ↦ make_dir os d
    | none ↦ if is_empty kept.work_dir then ok none else make_dir os kept.work_dir
  ]

  module _ (spawns : SpawnSerde) where
    -- what the spawn file of a directory says
    abbrev pub args_in : FilePath → State → SpawnArgs
    args_in dir s = read_spawn_args spawns (spawn_file dir s.spawn_files)

    -- `resume_session` from there
    unfoldable pub resume_start :
        Text → Option Text → Option Text → FilePath → State → State × Result Text Text
    unfolding read_spawn_args spawn_file resume_dir create launch_in path_text
    resume_start binary_path work_dir client dir s =
        let kept = args_in dir s in
        elim (resume_dir work_dir kept) [
          | err e ↦ (s, err e)
          | ok wd ↦
              create os os.new_id (or_empty client) dir
                (launch_in os binary_path (path_text (config_dir dir)) dir record {
                  spawn_args = kept;
                  level = or_balanced kept.reasoning_level;
                  child_dir = wd;
                })
                s
        ]

    unfoldable pub resume_session :
        Text → Text → Option Text → Place → Option Text → State → State × Result Text Text
    unfolding resume_check resume_start
    resume_session id binary_path work_dir place client s = elim (resume_check place id s) [
      | err e ↦ (s, err e)
      | ok dir ↦ resume_start binary_path work_dir client dir s
    ]

    -- `start` with what the client and the fallback say
    unfoldable pub start_with :
        Text
        → Text
        → Text
        → Overrides
        → Fallback
        → Text
        → FilePath
        → State
        → State × Result Text Text
    unfolding envelope start
    start_with binary_path config_path owner o f preset dir s = elim (envelope os o f preset) [
      | err e ↦ (s, err e)
      | ok e ↦ start os spawns binary_path config_path owner dir e s
    ]

    -- The request to the source process, the wait for the file, and the start of the copy.
    unfoldable pub fork_into :
        Text
        → Text
        → Overrides
        → Fallback
        → Text
        → Text
        → FilePath
        → State
        → State × Result Text Text
    unfolding start_with path_text
    fork_into history_id binary_path o f preset owner dir s =
        elim (os.fork_sent (history_id ++ b' ' ∷ path_text (session_file dir))) [
          | err e ↦ (s, err e)
          | ok sent ↦ elim os.fork_written [
            | err e ↦ (s, err e)
            | ok seen ↦ start_with binary_path (path_text (config_dir dir)) owner o f preset dir s
          ]
        ]

    module _ (serde : Serde) (files : SettingsSerde serde.Value) where
      unfoldable pub create_session :
          Text
          → Text
          → Overrides
          → Option Text
          → Place
          → Option Text
          → State
          → State × Result Text Text
      unfolding preset_ready create_session_dir preset_fallback start_with path_text
      create_session binary_path config_path o preset place client s =
          let name = or_empty preset in
          elim (preset_ready name) [
            | err e ↦ (s, err e)
            | ok config ↦
                go_on
                  (λ dir.
                    start_with binary_path (config_of config_path dir) (or_empty client) o
                      (preset_fallback os serde files name) name dir)
                  (create_session_dir os place name s)
          ]

      unfoldable pub fork_session :
          Text
          → Text
          → Text
          → Overrides
          → Option Text
          → Place
          → Option Text
          → State
          → State × Result Text Text
      unfolding get read_spawn_args spawn_file resolve_config_dir create_session_dir preset_fallback
          source_fallback fork_into
      fork_session source history_id binary_path o preset place client s =
          let plain = is_empty (or_empty preset) in
          elim os.ensured [
            | err e ↦ (s, err e)
            | ok done ↦ elim (get source s.sessions) [
              | none ↦ (s, err (codes "Session not found"))
              | some h ↦
                  let kept = args_in h.session_dir s in
                  let name = if plain then kept.preset else or_empty preset in
                  let f =
                    if plain then source_fallback kept else preset_fallback os serde files name in
                  if plain && is_empty name
                  then (
                    s,
                    err (codes "Preset is required: the source session has no recorded preset"),
                  )
                  else elim (resolve_config_dir os.exists os.presets_root name) [
                    | err e ↦ (s, err (config_message e))
                    | ok config ↦
                        go_on (fork_into history_id binary_path o f name (or_empty client))
                          (create_session_dir os place name s)
                  ]
            ]
          ]
