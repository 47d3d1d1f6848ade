-- ===== src/Settings.antt =====
-- The settings of a preset: src-tauri/src/commands/settings.rs. The file is its text, or `none` if it
-- cannot be read.
pub mod ToolIds
pub mod Normalizing
pub mod Merging
use alayaface.Prelude.{
  ℕ, ◌≡◌, Bool, true, false, not, ◌&&◌, ◌||◌, Option, none, some, List, [], ◌∷◌, ◌++◌, Text, codes,
  is_empty, any, leb, if◌then◌else◌, Result, ok, err, ◌>>=◌, holds,
}
use alayaface.Chars.{trim, split_on, is_whitespace}
use alayaface.Json.{Serde}

-- `i64`
pub data ℤ : Type 0 where
  pos : ℕ → ℤ
  negsuc : ℕ → ℤ

pub record GlobalSettings : Type 0 where
  pub tool_confirm : Text
  pub builtin_tools : Text
  pub system_prompt : Text
  pub reasoning_level : Option ℤ

-- `GlobalSettings::default()`
abbrev pub default : GlobalSettings
default = record {
  tool_confirm = [];
  builtin_tools = [];
  system_prompt = [];
  reasoning_level = none;
}

-- `Vec::join`
unfoldable pub join_with : ℕ → List Text → Text
join_with sep [] = []
join_with sep (id ∷ []) = id
join_with sep (id ∷ next ∷ ids) = id ++ sep ∷ join_with sep (next ∷ ids)

-- The loop of `normalize_tool_confirm`, on the parts and the set of the ids before them.
unfoldable pub tool_ids : List Text → List Text → Result Text (List Text)
unfolding trim is_whitespace holds
tool_ids seen [] = ok []
tool_ids seen (part ∷ parts) =
    let id = trim part in
    let skip = is_empty id in
    let rest = tool_ids (if skip then seen else id ∷ seen) parts in
    if skip
    then rest
    else if any is_whitespace id
    then err (codes "Tool id must not contain spaces: " ++ id)
    else if holds id seen
    then err (codes "Duplicate tool id: " ++ id)
    else do ids ← rest; ok (id ∷ ids)

unfoldable pub normalize_tool_confirm : Text → Result Text Text
unfolding tool_ids split_on join_with
normalize_tool_confirm raw = do ids ← tool_ids [] (split_on b',' raw); ok (join_with b',' ids)

unfoldable pub is_level : ℤ → Bool
is_level (pos n) = leb n 2
is_level (negsuc n) = false

abbrev pub level_error : Text
level_error = codes "Reasoning level must be 0, 1 or 2"

unfoldable pub normalize_reasoning_level : ℤ → Result Text ℤ
unfolding is_level
normalize_reasoning_level raw = if is_level raw then ok raw else err level_error

-- `effective_reasoning_level`, on the settings of the preset
unfoldable pub effective_level : GlobalSettings → ℤ
unfolding is_level
effective_level s = elim s.reasoning_level [
  | none ↦ pos 1
  | some level ↦ if is_level level then level else pos 1
]

-- The `effective_*` functions, on what `read_preset_settings` answers.
unfoldable pub effective_tool_confirm : Result Text GlobalSettings → Result Text Text
unfolding normalize_tool_confirm
effective_tool_confirm read = do s ← read; normalize_tool_confirm s.tool_confirm

unfoldable pub effective_builtin_tools : Result Text GlobalSettings → Result Text Text
unfolding normalize_tool_confirm
effective_builtin_tools read = do s ← read; normalize_tool_confirm s.builtin_tools

unfoldable pub effective_system_prompt : Result Text GlobalSettings → Result Text Text
effective_system_prompt read = do s ← read; ok s.system_prompt

unfoldable pub effective_reasoning_level : Result Text GlobalSettings → Result Text ℤ
unfolding effective_level
effective_reasoning_level read = do s ← read; ok (effective_level s)

-- What serde does for these types: numbers, and the settings as a file.
pub record SettingsSerde (Value : Type 0) : Type 0 where
  pub as_i64 : Value → Option ℤ
  pub settings_of : Text → Option GlobalSettings
  pub to_string_pretty : GlobalSettings → Text
  pub settings_of-to_string_pretty :
      (s : GlobalSettings) → settings_of (to_string_pretty s) ≡ some s
  -- JSON objects start with a brace.
  pub to_string_pretty-trim : (s : GlobalSettings) → is_empty (trim (to_string_pretty s)) ≡ false

module _ (serde : Serde) (files : SettingsSerde serde.Value) where
  unfoldable pub read_settings_from : Option Text → Result Text GlobalSettings
  unfolding trim
  read_settings_from none = ok default
  read_settings_from (some text) =
      if is_empty (trim text) then ok default else elim (files.settings_of text) [
        | none ↦ err (codes "Failed to parse settings.conf")
        | some s ↦ ok s
      ]

  -- `value.get(key).and_then(|v| v.as_str())`
  unfoldable pub get_str : serde.Value → Text → Option Text
  get_str value key = elim (serde.get value key) [ none ↦ none | some v ↦ serde.as_str v ]

  -- A tool list that the payload has is normalized; one that it lacks stays.
  unfoldable pub merge_tools : serde.Value → Text → Text → Result Text Text
  unfolding get_str normalize_tool_confirm
  merge_tools value key current = elim (get_str value key) [
    | none ↦ ok current
    | some raw ↦ normalize_tool_confirm raw
  ]

  unfoldable pub merge_level : serde.Value → Option ℤ → Result Text (Option ℤ)
  unfolding normalize_reasoning_level
  merge_level value current = elim (serde.get value (codes "reasoning_level")) [
    | none ↦ ok current
    | some v ↦ elim (files.as_i64 v) [
      | none ↦ err level_error
      | some raw ↦ do level ← normalize_reasoning_level raw; ok (some level)
    ]
  ]

  unfoldable pub merge_prompt : serde.Value → Text → Text
  unfolding get_str
  merge_prompt value current = elim (get_str value (codes "system_prompt")) [
    | none ↦ current
    | some text ↦ text
  ]

  unfoldable pub merge : serde.Value → GlobalSettings → Result Text GlobalSettings
  unfolding merge_tools merge_level merge_prompt
  merge value s = do
    confirm ← merge_tools value (codes "tool_confirm") s.tool_confirm
    builtin ← merge_tools value (codes "builtin_tools") s.builtin_tools
    level ← merge_level value s.reasoning_level
    ok record {
      tool_confirm = confirm;
      builtin_tools = builtin;
      system_prompt = merge_prompt value s.system_prompt;
      reasoning_level = level;
    }

  -- `sync_global_settings` in a preset directory that was found: the file after it, and its answer.
  -- The write is atomic, and answers with what it is given here.
  unfoldable pub sync_global_settings :
      Result Text (Unit {0}) → Text → Option Text → Option Text × Result Text (Unit {0})
  unfolding read_settings_from merge
  sync_global_settings write config file = elim (serde.from_str config) [
    | none ↦ (file, err (codes "Invalid settings JSON"))
    | some value ↦ elim (read_settings_from file) [
      | err e ↦ (file, err e)
      | ok s ↦ elim (merge value s) [
        | err e ↦ (file, err e)
        | ok s' ↦ elim write [
          | err e ↦ (file, err (codes "Failed to write settings.conf: " ++ e))
          | ok done ↦ (some (files.to_string_pretty s'), ok done)
        ]
      ]
    ]
  ]
