-- ===== src/Dirs/Presets.antt =====
-- The presets of src-tauri/src/dirs.rs: the saved order, the listing of the presets directory, and
-- the directory of a preset. The file system is what it answers: the texts of files, the entries of
-- directories, and which paths exist.
use alayaface.Prelude.{
  Bool, true, false, not, ◌&&◌, ◌||◌, Option, none, some, List, [], ◌∷◌, ◌++◌, Text, codes,
  is_empty, ltb, ◌==◌, if◌then◌else◌, Result, ok, err, ◌>>=◌, holds, filter,
}
use alayaface.Chars.{trim}
use alayaface.Dirs.Names.{valid_preset_name}
use alayaface.Dirs.Paths.{FilePath, join}

-- A loop that pushes the names that pass a test and are new to the set `seen`: what it pushes, and
-- the set after it.
unfoldable pub push_new : (Text → Bool) → List Text → List Text → List Text × List Text
unfolding holds
push_new test seen [] = ([], seen)
push_new test seen (n ∷ ns) =
    let fresh = test n && not (holds n seen) in
    let rest = push_new test (if fresh then n ∷ seen else seen) ns in
    if fresh then (n ∷ rest.0, rest.1) else rest

-- `from_str` decodes the JSON array of the order file, of which `none` is one that cannot be read.
unfoldable pub read_preset_order : (Text → Option (List Text)) → Option Text → List Text
unfolding push_new valid_preset_name
read_preset_order from_str none = []
read_preset_order from_str (some text) = elim (from_str text) [
  | none ↦ []
  | some raw ↦ (push_new valid_preset_name [] raw).0
]

-- an entry of a directory; its name is `none` if it is not UTF-8
pub record DirEntry : Type 0 where
  pub is_dir : Bool
  pub file_name : Option Text

unfoldable pub push_preset : DirEntry → List Text → List Text
unfolding valid_preset_name
push_preset entry names = elim entry.file_name [
  | none ↦ names
  | some name ↦ if entry.is_dir && valid_preset_name name then name ∷ names else names
]

-- The entries of the presets directory in the order of the file system, each with its own error.
unfoldable pub preset_names : List (Result Text DirEntry) → Result Text (List Text)
unfolding push_preset
preset_names [] = ok []
preset_names (err e ∷ entries) = err (codes "Read error: " ++ e)
preset_names (ok entry ∷ entries) = do names ← preset_names entries; ok (push_preset entry names)

-- `Ord for String`: by bytes, which for UTF-8 is by code points
unfoldable pub text_leb : Text → Text → Bool
text_leb [] t = true
text_leb (c ∷ cs) [] = false
text_leb (c ∷ cs) (d ∷ ds) = ltb c d || (c == d && text_leb cs ds)

unfoldable pub insert_sorted : Text → List Text → List Text
unfolding text_leb
insert_sorted name [] = name ∷ []
insert_sorted name (n ∷ ns) =
    let rest = insert_sorted name ns in if text_leb name n then name ∷ n ∷ ns else n ∷ rest

-- `names.sort()`
unfoldable pub sort : List Text → List Text
unfolding insert_sorted
sort [] = []
sort (n ∷ ns) = insert_sorted n (sort ns)

unfoldable pub apply_order : List Text → List Text → List Text
unfolding push_new holds
apply_order ordered names =
    if is_empty ordered
    then names
    else let (out, seen) = push_new (λ n. holds n names) [] ordered in
      out ++ filter (λ n. not (holds n seen)) names

-- The presets directory is `none` if it does not exist, and an error if it cannot be read.
unfoldable pub list_preset_names :
    (Text → Option (List Text))
    → Option Text
    → Option (Result Text (List (Result Text DirEntry)))
    → Result Text (List Text)
unfolding read_preset_order preset_names sort apply_order
list_preset_names from_str order_file none = ok []
list_preset_names from_str order_file (some (err e)) = err (codes "Cannot read presets dir: " ++ e)
list_preset_names from_str order_file (some (ok entries)) = do
  names ← preset_names entries
  ok (apply_order (read_preset_order from_str order_file) (sort names))

pub data ConfigError : Type 0 where
  preset_required : ConfigError
  invalid_preset_name : Text → ConfigError
  preset_not_found : Text → ConfigError

abbrev pub config_message : ConfigError → Text
config_message preset_required = codes "Preset is required"
config_message (invalid_preset_name name) = codes "Invalid preset name: " ++ name
config_message (preset_not_found name) = codes "Preset not found: " ++ name

-- `preset_dir` over `presets_root`, and `resolve_config_dir`
unfoldable pub preset_dir : FilePath → Text → FilePath
unfolding join
preset_dir presets_root name = join presets_root name

unfoldable pub resolve_config_dir :
    (FilePath → Bool) → FilePath → Text → Result ConfigError FilePath
unfolding preset_dir valid_preset_name trim
resolve_config_dir exists presets_root preset =
    let name = trim preset in
    let dir = preset_dir presets_root name in
    if is_empty name
    then err preset_required
    else if not (valid_preset_name name)
    then err (invalid_preset_name name)
    else if not (exists dir)
    then err (preset_not_found name)
    else ok dir
