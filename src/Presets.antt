-- ===== src/Presets.antt =====
-- The preset commands of src-tauri/src/commands/presets.rs over the presets directory and the order
-- file, with `ensure` of src-tauri/src/dirs.rs. A preset is a directory: its name and what it holds.
pub mod Wanted
pub mod Names
pub mod Managed
pub mod Commands
pub mod Arranged
pub mod Reordered
use alayaface.Prelude.{
  ℕ, Bool, true, false, not, ◌&&◌, Option, none, some, List, [], ◌∷◌, ◌++◌, Text, codes, text_eq,
  is_empty, take, length, leb, if◌then◌else◌, Result, ok, err, ◌>>=◌, go_on, holds, filter,
}
use alayaface.Chars.{trim}
use alayaface.Dirs.Names.{valid_preset_name, seed_presets, is_seed_preset}
use alayaface.Dirs.Presets.{DirEntry, push_new, list_preset_names}

pub record Preset (Content : Type 0) : Type 0 where
  pub name : Text
  pub content : Content

pub record State (Content : Type 0) : Type 0 where
  pub presets : List (Preset Content)
  pub order_file : Option Text

-- What the file system answers while a command runs. `seeding` is the number of seeds that are created
-- before one fails, with the error. A copy or a removal of a directory leaves something or nothing at
-- its target, also where it fails.
pub record Disk (Content : Type 0) : Type 0 where
  pub seeding : Option (ℕ × Text)
  pub clone : Content → Option Content × Result Text (Unit {0})
  pub remove : Content → Option Content × Result Text (Unit {0})
  pub rename : Result Text (Unit {0})
  pub write : Result Text (Unit {0})

pub record PresetInfo : Type 0 where
  pub info_name : Text
  pub is_seed : Bool

unfoldable pub validate_name : Text → Result Text Text
unfolding trim valid_preset_name
validate_name name =
    if not (valid_preset_name (trim name))
    then err (codes "Invalid preset name: " ++ trim name)
    else ok (trim name)

unfoldable pub trimmed : List Text → List Text
unfolding trim
trimmed [] = []
trimmed (n ∷ ns) = trim n ∷ trimmed ns

-- the two loops of `reorder_presets`
unfoldable pub ordered_of : List Text → List Text → List Text
unfolding push_new trimmed holds
ordered_of existing names =
    let (out, seen) = push_new (λ n. holds n existing) [] (trimmed names) in
    out ++ filter (λ n. not (holds n seen)) existing

unfoldable pub infos : List Text → List PresetInfo
unfolding is_seed_preset
infos [] = []
infos (n ∷ ns) = record { info_name = n; is_seed = is_seed_preset n } ∷ infos ns

module _ {Content : Type 0} where
  unfoldable pub names_of : List (Preset Content) → List Text
  names_of [] = []
  names_of (p ∷ ps) = p.name ∷ names_of ps

  -- `preset_dir(name).exists()`, with what is there
  unfoldable pub find : Text → List (Preset Content) → Option Content
  find name [] = none
  find name (p ∷ ps) = if text_eq name p.name then some p.content else find name ps

  -- The directory of that name holds this now, or is gone.
  unfoldable pub replace : Text → Option Content → List (Preset Content) → List (Preset Content)
  replace name left [] = []
  replace name left (p ∷ ps) =
      let rest = replace name left ps in
      if text_eq name p.name
      then elim left [ none ↦ rest | some c ↦ record p { content = c } ∷ rest ]
      else p ∷ rest

  -- The directory of the new name, which was not there, holds this now, if anything.
  unfoldable pub place : Text → Option Content → List (Preset Content) → List (Preset Content)
  place name none ps = ps
  place name (some c) ps = ps ++ record { name = name; content = c } ∷ []

  unfoldable pub renamed : Text → Text → List (Preset Content) → List (Preset Content)
  renamed old new [] = []
  renamed old new (p ∷ ps) =
      (if text_eq old p.name then record p { name = new } else p) ∷ renamed old new ps

  -- the directories as `read_dir` shows them
  unfoldable pub entries_of : List (Preset Content) → List (Result Text DirEntry)
  entries_of [] = []
  entries_of (p ∷ ps) = ok record { is_dir = true; file_name = some p.name } ∷ entries_of ps

  unfoldable pub seeds : (Text → Content) → List Text → List (Preset Content)
  seeds defaults [] = []
  seeds defaults (n ∷ ns) = record { name = n; content = defaults n } ∷ seeds defaults ns

  -- The commands on the state `s`. `defaults` is what `create_preset_defaults` writes, and the order file
  -- is read and written by serde.
  module _ (defaults : Text → Content) (from_str : Text → Option (List Text))
      (to_string : List Text → Text) (disk : Disk Content) where
    -- `ensure`: the seeds are created in an empty directory only
    unfoldable pub ensure : State Content → State Content × Result Text (Unit {0})
    unfolding seeds
    ensure s = if not (is_empty s.presets) then (s, ok tt) else elim disk.seeding [
      | none ↦ (record s { presets = seeds defaults seed_presets }, ok tt)
      | some (k, e) ↦ (record s { presets = seeds defaults (take k seed_presets) }, err e)
    ]

    -- a command after `ensure()?`
    abbrev pub ensured :
        {A : Type 0}
        → (State Content → State Content × Result Text A)
        → State Content
        → State Content × Result Text A
    ensured command s = go_on (λ done. command) (ensure s)

    unfoldable pub preset_list : State Content → Result Text (List Text)
    unfolding list_preset_names entries_of
    preset_list s = list_preset_names from_str s.order_file (some (ok (entries_of s.presets)))

    unfoldable pub copy_from : Text → Text → State Content → State Content × Result Text (Unit {0})
    unfolding find place
    copy_from source name s =
        if text_eq source name
        then (s, err (codes "Source and new preset have the same name"))
        else elim (find source s.presets) [
          | none ↦ (s, err (codes "Preset not found: " ++ source))
          | some content ↦ elim (find name s.presets) [
            | some taken ↦ (s, err (codes "Preset already exists: " ++ name))
            | none ↦
                let (made, result) = disk.clone content in
                (record s { presets = place name made s.presets }, result)
          ]
        ]

    unfoldable pub delete_named : Text → State Content → State Content × Result Text (Unit {0})
    unfolding is_seed_preset preset_list find replace
    delete_named name s =
        if is_seed_preset name
        then (s, err (codes "Cannot delete the built-in preset: " ++ name))
        else elim (preset_list s) [
          | err e ↦ (s, err e)
          | ok names ↦
              if leb (length names) 1
              then (s, err (codes "Cannot delete the last preset"))
              else elim (find name s.presets) [
                | none ↦ (s, err (codes "Preset not found: " ++ name))
                | some content ↦
                    let (left, result) = disk.remove content in
                    (record s { presets = replace name left s.presets }, result)
              ]
        ]

    unfoldable pub rename_named :
        Text → Text → State Content → State Content × Result Text (Unit {0})
    unfolding is_seed_preset find renamed
    rename_named old new s =
        if is_seed_preset old
        then (s, err (codes "Cannot rename the built-in preset: " ++ old))
        else if text_eq old new
        then (s, ok tt)
        else elim (find old s.presets) [
          | none ↦ (s, err (codes "Preset not found: " ++ old))
          | some content ↦ elim (find new s.presets) [
            | some taken ↦ (s, err (codes "Preset already exists: " ++ new))
            | none ↦ elim disk.rename [
              | err e ↦ (s, err (codes "Failed to rename preset: " ++ e))
              | ok done ↦ (record s { presets = renamed old new s.presets }, ok tt)
            ]
          ]
        ]

    unfoldable pub reorder_named :
        List Text → State Content → State Content × Result Text (Unit {0})
    unfolding preset_list ordered_of
    reorder_named names s = elim (preset_list s) [
      | err e ↦ (s, err e)
      | ok existing ↦ elim disk.write [
        | err e ↦ (s, err (codes "Write preset order: " ++ e))
        | ok done ↦ (record s { order_file = some (to_string (ordered_of existing names)) }, ok tt)
      ]
    ]

    unfoldable pub list_presets : State Content → State Content × Result Text (List PresetInfo)
    unfolding ensure preset_list infos
    list_presets = ensured λ s. (s, (do names ← preset_list s; ok (infos names)))

    unfoldable pub copy_preset :
        Text → Text → State Content → State Content × Result Text (Unit {0})
    unfolding validate_name ensure copy_from
    copy_preset source name s = elim (validate_name source) [
      | err e ↦ (s, err e)
      | ok source' ↦ elim (validate_name name) [
        | err e ↦ (s, err e)
        | ok name' ↦ ensured (copy_from source' name') s
      ]
    ]

    unfoldable pub delete_preset : Text → State Content → State Content × Result Text (Unit {0})
    unfolding validate_name ensure delete_named
    delete_preset name s = elim (validate_name name) [
      | err e ↦ (s, err e)
      | ok name' ↦ ensured (delete_named name') s
    ]

    unfoldable pub rename_preset :
        Text → Text → State Content → State Content × Result Text (Unit {0})
    unfolding validate_name ensure rename_named
    rename_preset old new s = elim (validate_name old) [
      | err e ↦ (s, err e)
      | ok old' ↦ elim (validate_name new) [
        | err e ↦ (s, err e)
        | ok new' ↦ ensured (rename_named old' new') s
      ]
    ]

    unfoldable pub reorder_presets :
        List Text → State Content → State Content × Result Text (Unit {0})
    unfolding ensure reorder_named
    reorder_presets names = ensured (reorder_named names)
