-- ===== src/Tests/VersionTests.antt =====
-- The version of a process and of a session file, with the library of ToyJson.
use alayaface.Prelude.{
  ◌≡◌, refl, Option, none, some, List, [], ◌∷◌, ◌++◌, Text, text_eq, codes, ok, err,
}
use alayaface.Chars.{trim, is_whitespace}
use alayaface.Settings.{ℤ, pos, negsuc}
use alayaface.Wire.{
  Reader, available, interrupted, encode, is_letter, max_frame_size, tag_system_msg,
}
use alayaface.Wire.Bytes.{position}
use alayaface.Wire.Utf8.{is_utf8}
use alayaface.Versions.{
  VersionError, is_supported, rule, version_key, parse_i64, session_file_rejection,
  read_version_frame, strip_key,
}
use alayaface.Versions.Headers.{refusal, written, session_file_rejection-header}
use alayaface.Versions.Handshake.{read_version_frame-encode}
use alayaface.Tests.ToyJson.{Toy, empty, text, fields, field, end, toy_json, version_text}

abbrev others : List Text
others = codes "created_at: 1" ∷ codes "active_model: m\r" ∷ []

-- a version with spaces and a carriage return
abbrev value : Text
value = codes " 16 \r"

-- The file is of ASCII characters.
abbrev same_codes : Text → Text
same_codes bytes = bytes

abbrev old_file : Text
old_file = rule ++ b'\n' ∷ (written others ++ ((version_key ++ value) ++ b'\n' ∷ codes "UX{}\n"))

session_file_rejection-header_example :
    session_file_rejection same_codes (some old_file) (codes "session.alaya")
    ≡ refusal (codes "session.alaya") (codes "16")
unfolding trim is_whitespace text_eq parse_i64 strip_key session_file_rejection
session_file_rejection-header_example =
    session_file_rejection-header same_codes old_file others value (codes "UX{}\n")
      (codes "session.alaya") refl refl refl

numbers :
    (parse_i64 (codes "-9223372036854775808") ≡ some (negsuc 9_223_372_036_854_775_807))
    × (parse_i64 (codes "9223372036854775808") ≡ none)
    × (parse_i64 (codes "+7") ≡ some (pos 7))
    × (parse_i64 (codes "+") ≡ none)
unfolding parse_i64
numbers = (refl, refl, refl, refl)

abbrev as_i64 : Toy → Option ℤ
as_i64 (text t) = parse_i64 t
as_i64 empty = none
as_i64 (fields fs) = none

abbrev stream : Reader
stream = available (codes "SM{\"type\"") ∷ interrupted ∷ available (codes ":\"version\"}\nSM") ∷ []

encode-version :
    encode tag_system_msg version_text ≡ ok (tag_system_msg ++ version_text ++ b'\n' ∷ [])
unfolding encode is_letter position max_frame_size
encode-version = refl

read_version_frame-encode_example :
    read_version_frame toy_json as_i64 stream ≡ err (VersionError.incompatible (pos 16))
unfolding is_utf8 text_eq parse_i64 is_supported
read_version_frame-encode_example =
    read_version_frame-encode toy_json as_i64 version_text
      (tag_system_msg ++ version_text ++ b'\n' ∷ []) (codes "SM") stream
      (record {
        msg_type = codes "version";
        body = fields (field (codes "message_version") (text (codes "16")) end);
      })
      (pos 16) encode-version refl tt refl refl refl refl
