-- ===== src/Presets/Commands.antt =====
-- The commands of src-tauri/src/commands/presets.rs in any sequence.
use alayaface.Prelude.{
  go_on, ◌≡◌, ap, Option, List, [], ◌∷◌, Text, Result, ok, ◌>>=◌, Result-cases, inl, inr,
}
use alayaface.Presets.{
  State, Disk, PresetInfo, infos, preset_list, validate_name, names_of, ensured, copy_from,
  delete_named, rename_named, reorder_named, list_presets, copy_preset, delete_preset,
  rename_preset, reorder_presets,
}
use alayaface.Presets.Managed.{
  IsManaged, validate_name-valid, copy_from-IsKept, delete_named-IsKept, rename_named-IsKept,
  reorder_named-IsKept, ensure_managed,
}

-- What the client asks for, with what the file system answers while it is done.
pub data Command : Type 0 where
  list : Command
  copy : Text → Text → Command
  delete : Text → Command
  rename : Text → Text → Command
  reorder : List Text → Command

module _ {Content : Type 0} (defaults : Text → Content) (from_str : Text → Option (List Text))
    (to_string : List Text → Text) where
  unfoldable pub step : Disk Content → Command → State Content → State Content
  unfolding list_presets copy_preset delete_preset rename_preset reorder_presets
  step disk list s = (list_presets defaults from_str to_string disk s).0
  step disk (copy source name) s = (copy_preset defaults from_str to_string disk source name s).0
  step disk (delete name) s = (delete_preset defaults from_str to_string disk name s).0
  step disk (rename old new) s = (rename_preset defaults from_str to_string disk old new s).0
  step disk (reorder names) s = (reorder_presets defaults from_str to_string disk names s).0

  unfoldable pub run : List (Disk Content × Command) → State Content → State Content
  unfolding step
  run [] s = s
  run ((disk, command) ∷ rest) s = run rest (step disk command s)

  -- After `ensure`, a command runs on the same state.
  pub ensured_managed :
      {A : Type 0} (disk : Disk Content) (command : State Content → State Content × Result Text A)
      (s : State Content)
      → IsManaged (names_of s.presets)
      → ensured defaults from_str to_string disk command s ≡ command s
  ensured_managed disk command s m =
      ap (go_on (λ done. command)) (ensure_managed defaults from_str to_string disk s m)

  list_presets-IsManaged :
      (disk : Disk Content) (s : State Content)
      → IsManaged (names_of s.presets)
      → IsManaged (names_of (list_presets defaults from_str to_string disk s).0.presets)
  unfolding list_presets
  list_presets-IsManaged disk s m =
      let listing : State Content → State Content × Result Text (List PresetInfo) = λ s'.
        (s', (do names ← preset_list defaults from_str to_string disk s'; ok (infos names))) in
      rw (list_presets, ensured_managed disk listing s m) m

  copy_preset-IsManaged :
      (disk : Disk Content) (source name : Text) (s : State Content)
      → IsManaged (names_of s.presets)
      → IsManaged (names_of (copy_preset defaults from_str to_string disk source name s).0.presets)
  unfolding copy_preset
  copy_preset-IsManaged disk source name s m = elim (Result-cases (validate_name source)) [
    | inr (e, v) ↦ rw (copy_preset, v) m
    | inl (source', v) ↦ elim (Result-cases (validate_name name)) [
      | inr (e, w) ↦ rw (copy_preset, v, w) m
      | inl (name', w) ↦
          rw
            (
              copy_preset,
              v,
              w,
              ensured_managed disk (copy_from defaults from_str to_string disk source' name') s m,
            )
            (copy_from-IsKept defaults from_str to_string disk source' name' s
              (validate_name-valid name name' w) m)
    ]
  ]

  delete_preset-IsManaged :
      (disk : Disk Content) (name : Text) (s : State Content)
      → IsManaged (names_of s.presets)
      → IsManaged (names_of (delete_preset defaults from_str to_string disk name s).0.presets)
  unfolding delete_preset
  delete_preset-IsManaged disk name s m = elim (Result-cases (validate_name name)) [
    | inr (e, v) ↦ rw (delete_preset, v) m
    | inl (name', v) ↦
        rw
          (
            delete_preset,
            v,
            ensured_managed disk (delete_named defaults from_str to_string disk name') s m,
          )
          (delete_named-IsKept defaults from_str to_string disk name' s m)
  ]

  rename_preset-IsManaged :
      (disk : Disk Content) (old new : Text) (s : State Content)
      → IsManaged (names_of s.presets)
      → IsManaged (names_of (rename_preset defaults from_str to_string disk old new s).0.presets)
  unfolding rename_preset
  rename_preset-IsManaged disk old new s m = elim (Result-cases (validate_name old)) [
    | inr (e, v) ↦ rw (rename_preset, v) m
    | inl (old', v) ↦ elim (Result-cases (validate_name new)) [
      | inr (e, w) ↦ rw (rename_preset, v, w) m
      | inl (new', w) ↦
          rw
            (
              rename_preset,
              v,
              w,
              ensured_managed disk (rename_named defaults from_str to_string disk old' new') s m,
            )
            (rename_named-IsKept defaults from_str to_string disk old' new' s
              (validate_name-valid new new' w) m)
    ]
  ]

  reorder_presets-IsManaged :
      (disk : Disk Content) (names : List Text) (s : State Content)
      → IsManaged (names_of s.presets)
      → IsManaged (names_of (reorder_presets defaults from_str to_string disk names s).0.presets)
  unfolding reorder_presets
  reorder_presets-IsManaged disk names s m =
      rw
        (
          reorder_presets,
          ensured_managed disk (reorder_named defaults from_str to_string disk names) s m,
        )
        (reorder_named-IsKept defaults from_str to_string disk names s m)

  step-IsManaged :
      (disk : Disk Content) (command : Command) (s : State Content)
      → IsManaged (names_of s.presets)
      → IsManaged (names_of (step disk command s).presets)
  unfolding step
  step-IsManaged disk list s m = list_presets-IsManaged disk s m
  step-IsManaged disk (copy source name) s m = copy_preset-IsManaged disk source name s m
  step-IsManaged disk (delete name) s m = delete_preset-IsManaged disk name s m
  step-IsManaged disk (rename old new) s m = rename_preset-IsManaged disk old new s m
  step-IsManaged disk (reorder names) s m = reorder_presets-IsManaged disk names s m

  -- Whatever commands the client sends, and whatever fails while they are done (a copy or a removal may
  -- stop halfway), the presets keep valid names, no two have the same, and every built-in preset is
  -- still there.
  pub run-IsManaged :
      (commands : List (Disk Content × Command)) (s : State Content)
      → IsManaged (names_of s.presets)
      → IsManaged (names_of (run commands s).presets)
  unfolding run
  run-IsManaged [] s m = m
  run-IsManaged ((disk, command) ∷ rest) s m =
      run-IsManaged rest (step disk command s) (step-IsManaged disk command s m)
