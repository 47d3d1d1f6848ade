-- ===== src/Tests/LabelTests.antt =====
-- The name of a session, stored and read back, with the library of ToyJson.
use alayaface.Prelude.{
  ◌≡◌, refl, Bool, true, Option, none, some, [], ◌∷◌, Text, codes, text_eq, Result, ok,
  if◌then◌else◌, is_empty,
}
use alayaface.Chars.{trim, is_whitespace}
use alayaface.Dirs.Names.{safe_path_component}
use alayaface.Dirs.Paths.{FilePath, join}
use alayaface.Label.{Disk, read_session_label, label_of, sync_session_label, written}
use alayaface.Label.Storing.{sync_session_label-read}
use alayaface.Tests.ToyJson.{toy_json, label_text, label_value}

abbrev fine : Result Text (Unit {0})
fine = ok tt

abbrev disk : Disk
disk = record { ensure = fine; write = fine; remove = fine }

abbrev anywhere : FilePath → Bool
anywhere p = true

abbrev root : FilePath
root = record { is_absolute = true; parts = codes "sessions" ∷ [] }

abbrev label_doc : Text → Option Text
label_doc t = if text_eq t label_text then some (codes "my plan") else none

sync_session_label-read_example :
    (safe_path_component (codes "s1") ≡ true)
    × (anywhere (join (join root (codes "s1")) (codes "session.alaya")) ≡ true)
    × (read_session_label label_doc (some label_text) ≡ (
        if is_empty (trim (label_of toy_json label_value))
        then []
        else label_of toy_json label_value))
unfolding sync_session_label text_eq is_whitespace
sync_session_label-read_example =
    sync_session_label-read toy_json label_doc anywhere disk root (codes "s1") label_text
      label_value none (some label_text) (written 19) refl refl refl
