-- ===== src/Sessions.antt =====
-- The sessions that are running and what they leave on disk: `create` and `close` of
-- src-tauri/src/session.rs, and the commands of src-tauri/src/commands/sessions.rs.
pub mod Starting
pub mod Commands
pub mod Closing
pub mod Started
pub mod Racing
pub mod Placing
pub mod Kept
pub mod Resuming
pub mod Deleting
pub mod Listing
pub mod Newest
use alayaface.Prelude.{
  ℕ, zero, suc, ◌+◌, Bool, true, false, not, ◌&&◌, ◌||◌, Option, none, some, List, [], ◌∷◌, ◌++◌,
  Text, codes, text_eq, is_empty, any, filter, if◌then◌else◌, Result, ok, err, map_err, ◌>>=◌,
  go_on,
}
use alayaface.Chars.{trim}
use alayaface.Json.{Serde}
use alayaface.Dirs.Paths.{FilePath, join, path_eq, path_text, path_message, session_path}
use alayaface.Dirs.Presets.{config_message, resolve_config_dir}
use alayaface.Sending.{resolve_binary}
use alayaface.Settings.{
  ℤ, pos, GlobalSettings, SettingsSerde, is_level, normalize_reasoning_level, read_settings_from,
  effective_tool_confirm, effective_builtin_tools, effective_system_prompt,
  effective_reasoning_level,
}
use alayaface.Spawning.{
  SpawnArgs, SpawnSerde, Launch, spawn, parent, read_spawn_args, write_spawn_args,
}

-- What the map of sessions keeps of `SessionHandle`; the pipe, the flag and the registry are
-- components of their own.
pub record SessionHandle : Type 0 where
  pub session_dir : FilePath
  pub owner : Text

-- `dirs` are the directories of sessions that exist. `launched` are the processes that were started
-- and `announced` the events `core-status` of a connection, the newest first.
pub record State : Type 0 where
  pub sessions : List (Text × SessionHandle)
  pub dirs : List FilePath
  pub spawn_files : List (FilePath × Text)
  pub launched : List Launch
  pub announced : List Text

-- What the system answers while a command runs, and the new UUID. `exists` is about paths other than
-- the directories of sessions, `file_bytes` are the bytes of a file that
-- can be read, and `from_utf8_lossy` makes code points of bytes. A copy that fails may
-- leave the directory. `fork_sent` is the answer of `send_cmd`, and `fork_written` that of `wait_for_file`.
pub record Os : Type 0 where
  pub sessions_root : FilePath
  pub presets_root : FilePath
  pub new_id : Text
  pub ensured : Result Text (Unit {0})
  pub exists : FilePath → Bool
  pub settings_file : FilePath → Option Text
  pub copied : Result (Bool × Text) (Unit {0})
  pub create_dir_all : Text → Result Text (Unit {0})
  pub written : Result Text (Unit {0})
  pub found_binary : Text
  pub file_len : FilePath → Option ℕ
  pub search_path : List FilePath
  pub started : Launch → Result Text (Unit {0})
  pub file_bytes : FilePath → Option Text
  pub from_utf8_lossy : Text → Text
  pub fork_sent : Text → Result Text (Unit {0})
  pub fork_written : Result Text (Unit {0})

-- the place of a session: what the client passes with its id
pub record Place : Type 0 where
  pub origin : Option Text
  pub plan_id : Option Text
  pub node_id : Option Text

pub record Overrides : Type 0 where
  pub tool_confirm : Option Text
  pub builtin_tools : Option Text
  pub system_prompt : Option Text
  pub reasoning_level : Option ℤ
  pub work_dir : Option Text

-- `unwrap_or_default` and `unwrap_or` on an option
abbrev pub or_empty : Option Text → Text
or_empty none = []
or_empty (some t) = t

abbrev pub or_balanced : Option ℤ → ℤ
or_balanced none = pos 1
or_balanced (some level) = level

abbrev pub ok_or {ℓ} : {A : Type ℓ} → A → Result Text A → A
ok_or a (ok b) = b
ok_or a (err e) = a

-- a text that is given and not blank
unfoldable pub given : Option Text → Option Text
unfolding trim
given none = none
given (some t) = if is_empty (trim t) then none else some t

-- `map.remove`, and `map.insert` of an id
unfoldable pub without : Text → List (Text × SessionHandle) → List (Text × SessionHandle)
without id [] = []
without id ((key, h) ∷ rest) =
    let left = without id rest in if text_eq id key then left else (key, h) ∷ left

unfoldable pub get : Text → List (Text × SessionHandle) → Option SessionHandle
get id [] = none
get id ((key, h) ∷ rest) = let found = get id rest in if text_eq id key then some h else found

-- A session runs in the directory.
unfoldable pub is_active : FilePath → List (Text × SessionHandle) → Bool
unfolding path_eq
is_active dir [] = false
is_active dir ((key, h) ∷ rest) = path_eq h.session_dir dir || is_active dir rest

unfoldable pub spawn_file : FilePath → List (FilePath × Text) → Option Text
unfolding path_eq
spawn_file dir [] = none
spawn_file dir ((d, text) ∷ rest) =
    let found = spawn_file dir rest in if path_eq d dir then some text else found

unfoldable pub close : Text → State → State × Result Text (Unit {0})
unfolding get without
close id s = elim (get id s.sessions) [
  | none ↦ (s, err (codes "Session not found"))
  | some h ↦ (record s { sessions = without id s.sessions }, ok tt)
]

-- `close_all_sessions`: the ids that it takes under the lock, and their closes one after another
unfoldable pub owned_ids : Text → List (Text × SessionHandle) → List Text
owned_ids owner [] = []
owned_ids owner ((key, h) ∷ rest) =
    let ids = owned_ids owner rest in
    if is_empty owner || text_eq h.owner owner then key ∷ ids else ids

unfoldable pub close_each : List Text → State → State
unfolding close
close_each [] s = s
close_each (id ∷ ids) s = close_each ids (close id s).0

unfoldable pub close_all_sessions : Option Text → State → State × Result Text (Unit {0})
unfolding owned_ids close_each
close_all_sessions client s = (close_each (owned_ids (or_empty client) s.sessions) s, ok tt)

unfoldable pub place_of : FilePath → Place → Text → Result Text FilePath
unfolding session_path
place_of root place id =
    map_err path_message (
      session_path root (or_empty place.origin) (or_empty place.plan_id) (or_empty place.node_id)
        id)
