-- ===== src/Label.antt =====
-- The names of sessions: src-tauri/src/commands/label.rs, which stores the client's document, and
-- `read_session_label` of src-tauri/src/dirs.rs, which reads it. `label_doc` is the decoder that serde
-- derives for `LabelDoc`: the label, empty by default. The file is its text, or `none` if it is missing.
pub mod Storing
use alayaface.Prelude.{
  ℕ, Bool, true, false, not, ◌&&◌, ◌||◌, Option, none, some, List, [], ◌∷◌, ◌++◌, Text, codes,
  length, is_empty, ltb, if◌then◌else◌, Result, ok, err, map_err, ◌>>=◌,
}
use alayaface.Chars.{trim, byte_len}
use alayaface.Json.{Serde}
use alayaface.Dirs.Names.{safe_path_component}
use alayaface.Dirs.Paths.{FilePath, join}

abbrev pub max_label_chars : ℕ
max_label_chars = 120

unfoldable pub read_session_label : (Text → Option Text) → Option Text → Text
unfolding trim
read_session_label label_doc none = []
read_session_label label_doc (some text) = elim (label_doc text) [
  | none ↦ []
  | some label ↦
      if is_empty (trim label) then [] else if ltb max_label_chars (length label) then [] else label
]

abbrev pub label_err_bad_id : Text
label_err_bad_id = codes "Session id is not a single path component"

abbrev pub label_err_not_top : Text
label_err_not_top = codes "Not a top-level session"

abbrev pub label_err_doc_shape : Text
label_err_doc_shape = codes "Session label document must be a JSON object"

abbrev pub label_err_no_label : Text
label_err_no_label = codes "Session label document has no 'label'"

abbrev pub label_err_type : Text
label_err_type = codes "Session label 'label' must be a string"

abbrev pub label_err_too_long : Text
label_err_too_long = codes "Session label is over the character limit"

-- the key of the only field that is looked at
abbrev pub label_key : Text
label_key = codes "label"

-- What the directories and the file may fail with; to remove a file that is missing is a success.
pub record Disk : Type 0 where
  pub ensure : Result Text (Unit {0})
  pub write : Result Text (Unit {0})
  pub remove : Result Text (Unit {0})

pub data LabelReply : Type 0 where
  removed : LabelReply
  written : ℕ → LabelReply

module _ (serde : Serde) where
  unfoldable pub reject_doc : serde.Value → Option Text
  reject_doc doc =
      if not (serde.is_object doc)
      then some label_err_doc_shape
      else elim (serde.get doc label_key) [
        | none ↦ some label_err_no_label
        | some raw ↦ elim (serde.as_str raw) [
          | none ↦ some label_err_type
          | some text ↦ if ltb max_label_chars (length text) then some label_err_too_long else none
        ]
      ]

  unfoldable pub label_reject_reason : Text → Option Text
  unfolding reject_doc
  label_reject_reason raw = elim (serde.from_str raw) [
    | some doc ↦ reject_doc doc
    | none ↦ some label_err_doc_shape
  ]

  unfoldable pub label_of : serde.Value → Text
  label_of doc = elim (serde.get doc label_key) [
    | none ↦ []
    | some raw ↦ elim (serde.as_str raw) [ none ↦ [] | some text ↦ text ]
  ]

  -- The write is atomic: the file after it is the document, or the old one if it failed.
  unfoldable pub store_document :
      Disk → Text → serde.Value → Option Text → Option Text × Result Text LabelReply
  unfolding label_of trim byte_len
  store_document disk document doc file =
      if is_empty (trim (label_of doc))
      then elim disk.remove [ err e ↦ (file, err e) | ok done ↦ (none, ok removed) ]
      else elim disk.write [
        | err e ↦ (file, err e)
        | ok done ↦ (some document, ok (written (byte_len document)))
      ]

  unfoldable pub sync_session_label :
      (FilePath → Bool)
      → Disk
      → FilePath
      → Text
      → Text
      → Option Text
      → Option Text × Result Text LabelReply
  unfolding safe_path_component join label_reject_reason store_document
  sync_session_label exists disk sessions_root session_id document file =
      if not (safe_path_component session_id)
      then (file, err label_err_bad_id)
      else if not (exists (join (join sessions_root session_id) (codes "session.alaya")))
      then (file, err label_err_not_top)
      else elim (label_reject_reason document) [
        | some why ↦ (file, err why)
        | none ↦ elim (serde.from_str document) [
          | none ↦ (file, err label_err_doc_shape)
          | some doc ↦ elim disk.ensure [
            | err e ↦ (file, err e)
            | ok done ↦ store_document disk document doc file
          ]
        ]
      ]
