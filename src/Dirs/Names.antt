-- ===== src/Dirs/Names.antt =====
-- The names of src-tauri/src/dirs.rs: which preset names are valid, how an id is made a path
-- component, and which client ids are accepted as one.
use alayaface.Prelude.{
  ℕ, Bool, false, not, ◌&&◌, ◌||◌, List, [], ◌∷◌, Text, codes, text_eq, all, any, contains,
  is_empty, leb, ◌==◌, if◌then◌else◌,
}
use alayaface.Chars.{is_ascii_alphanumeric, byte_len}

-- the characters of preset names and of sanitized components
unfoldable pub is_name_char : ℕ → Bool
unfolding is_ascii_alphanumeric
is_name_char c = is_ascii_alphanumeric c || c == b'-' || c == b'_'

unfoldable pub valid_preset_name : Text → Bool
unfolding is_name_char byte_len
valid_preset_name name = not (is_empty name) && leb (byte_len name) 64 && all is_name_char name

-- the loop of `sanitize_dir_component`
unfoldable pub sanitize_chars : Text → Text
unfolding is_name_char
sanitize_chars [] = []
sanitize_chars (c ∷ cs) = (if is_name_char c then c else b'_') ∷ sanitize_chars cs

unfoldable pub sanitize_dir_component : Text → Text
unfolding sanitize_chars
sanitize_dir_component s = let out = sanitize_chars s in if is_empty out then b'p' ∷ [] else out

unfoldable pub safe_path_component : Text → Bool
safe_path_component s =
    if is_empty s || text_eq s (codes ".") || text_eq s (codes "..")
    then false
    else not (contains b'/' s) && not (contains b'\\' s) && not (contains 0 s)

-- `SEED_PRESETS` and `is_seed_preset`
abbrev pub seed_presets : List Text
seed_presets = codes "Simple" ∷ codes "Complex" ∷ codes "Talk" ∷ []

unfoldable pub is_seed_preset : Text → Bool
is_seed_preset name = any (text_eq name) seed_presets
