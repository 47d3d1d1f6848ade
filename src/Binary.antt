-- ===== src/Binary.antt =====
-- Where the binary of alayacore is: `find_binary` and `bundled_binary_path` of src-tauri/src/alayacore.rs
-- on Unix, and `check_alayacore` of src-tauri/src/commands/cmd.rs.
pub mod Found
use alayaface.Prelude.{
  ℕ, Bool, true, false, not, ◌&&◌, Option, none, some, and_then, List, [], ◌∷◌, ◌++◌, Text, codes,
  is_empty, ltb, if◌then◌else◌, Result, ok, err,
}
use alayaface.Chars.{trim}
use alayaface.Dirs.Paths.{FilePath, join, parse_path, path_text}
use alayaface.Spawning.{parent}

-- What the system answers. `which` is the first line that the command `which alayacore` prints, if it
-- succeeds.
pub record System : Type 0 where
  pub current_exe : Option FilePath
  pub file_len : FilePath → Option ℕ
  pub env_bin : Option Text
  pub exists : FilePath → Bool
  pub which : Option Text

unfoldable pub bundled_binary_path_from : FilePath → Option FilePath
unfolding parent join
bundled_binary_path_from exe = elim (parent exe) [
  | none ↦ none
  | some dir ↦
      if not dir.is_absolute && is_empty dir.parts
      then none
      else some (join dir (codes "alayacore"))
]

abbrev pub candidates : List Text
candidates =
    codes "alayacore"
    ∷ codes "../alayacore/alayacore"
    ∷ codes "./alayacore"
    ∷ codes "/usr/local/bin/alayacore"
    ∷ codes "/usr/bin/alayacore"
    ∷ []

-- a text that is there and not empty
abbrev pub filled : Option Text → Option Text
filled none = none
filled (some t) = if is_empty t then none else some t

module _ (sys : System) where
  -- the bundled binary, if it is not an empty stub
  unfoldable pub bundled : Option FilePath
  unfolding bundled_binary_path_from
  bundled = elim (and_then sys.current_exe bundled_binary_path_from) [
    | none ↦ none
    | some path ↦ elim (sys.file_len path) [
      | none ↦ none
      | some len ↦ if ltb 0 len then some path else none
    ]
  ]

  unfoldable pub from_env : Option Text
  unfolding parse_path
  from_env = elim (filled sys.env_bin) [
    | none ↦ none
    | some bin ↦ if sys.exists (parse_path bin) then some bin else none
  ]

  unfoldable pub from_which : Option Text
  unfolding trim
  from_which = elim sys.which [ none ↦ none | some line ↦ filled (some (trim line)) ]

  -- the loop over the common locations
  unfoldable pub first_candidate : List Text → Option Text
  unfolding parse_path
  first_candidate [] = none
  first_candidate (c ∷ cs) =
      let rest = first_candidate cs in if sys.exists (parse_path c) then some c else rest

  unfoldable pub find_binary : Text
  unfolding bundled from_env from_which first_candidate path_text
  find_binary = elim bundled [
    | some path ↦ path_text path
    | none ↦ elim from_env [
      | some bin ↦ bin
      | none ↦ elim from_which [
        | some bin ↦ bin
        | none ↦ elim (first_candidate candidates) [ some bin ↦ bin | none ↦ codes "alayacore" ]
      ]
    ]
  ]

  -- `check_alayacore`, with the check of the version: the path, or the error
  unfoldable pub check_alayacore : (Text → Result Text (Unit {0})) → Result Text Text
  unfolding find_binary parse_path
  check_alayacore check_message_version =
      if not (sys.exists (parse_path find_binary))
      then err (
          codes "AlayaCore binary not found at '"
          ++ find_binary
          ++ codes "'. Set the ALAYACORE_BIN environment variable or install alayacore on PATH.")
      else elim (check_message_version find_binary) [ err e ↦ err e | ok done ↦ ok find_binary ]
