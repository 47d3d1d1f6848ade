-- ===== src/Versions.antt =====
-- The protocol version: src-tauri/src/alayacore.rs on the first frame of a process, and on the header of
-- a session file. Of a file, the first 4096 bytes are looked at, decoded to code points; what a process
-- writes is a stream of bytes.
pub mod Headers
pub mod Handshake
use alayaface.Prelude.{
  ℕ, zero, suc, ◌+◌, ◌-◌, ◌*◌, Bool, true, false, not, ◌&&◌, Option, none, some, and_then, List, [],
  ◌∷◌, ◌++◌, Text, codes, text_eq, is_empty, ltb, leb, ◌==◌, if◌then◌else◌, Result, ok, err, take,
}
use alayaface.Chars.{trim, trim_end, push_head, decimal}
use alayaface.Json.{Serde}
use alayaface.Settings.{ℤ, pos, negsuc}
use alayaface.Wire.{WireError, Frame, Reader, tag_system_msg, read_frame}

abbrev pub supported_message_version : ℕ
supported_message_version = 17

unfoldable pub is_supported : ℤ → Bool
is_supported (pos n) = n == supported_message_version
is_supported (negsuc n) = false

-- `str::lines`, with the carriage returns left on
unfoldable pub lines : Text → List Text
lines [] = []
lines (c ∷ cs) = let rest = lines cs in if c == b'\n' then [] ∷ rest else push_head c rest

abbrev pub is_return : ℕ → Bool
is_return c = c == b'\r'

abbrev pub rule : Text
rule = codes "---"

abbrev pub version_key : Text
version_key = codes "message_version:"

-- `str::strip_prefix`
unfoldable pub strip_key : Text → Text → Option Text
strip_key [] t = some t
strip_key (k ∷ ks) [] = none
strip_key (k ∷ ks) (c ∷ cs) = let rest = strip_key ks cs in if k == c then rest else none

-- the digits of a number, onto those before them
unfoldable pub digits : ℕ → Text → Option ℕ
digits n [] = some n
digits n (c ∷ cs) =
    let rest = digits (10 * n + (c - b'0')) cs in if leb b'0' c && leb c b'9' then rest else none

abbrev negated : ℕ → Option ℤ
negated zero = some (pos 0)
negated (suc n) = if ltb n 0x8000_0000_0000_0000 then some (negsuc n) else none

abbrev in_range : ℕ → Option ℤ
in_range n = if ltb n 0x8000_0000_0000_0000 then some (pos n) else none

abbrev number : Text → Option ℕ
number [] = none
number (c ∷ cs) = digits 0 (c ∷ cs)

-- `str::parse::<i64>`
unfoldable pub parse_i64 : Text → Option ℤ
unfolding digits
parse_i64 [] = none
parse_i64 (c ∷ cs) =
    if c == b'-'
    then and_then (number cs) negated
    else if c == b'+'
    then and_then (number cs) in_range
    else and_then (number (c ∷ cs)) in_range

-- the loop on the lines behind the first
unfoldable pub header_version : List Text → Option ℤ
unfolding trim trim_end strip_key parse_i64
header_version [] = none
header_version (l ∷ ls) =
    let line = trim_end is_return l in
    let rest = header_version ls in
    if text_eq (trim line) rule
    then none
    else elim (strip_key version_key line) [ some value ↦ parse_i64 (trim value) | none ↦ rest ]

abbrev pub session_header_window : ℕ
session_header_window = 4096

-- The bytes of the file are `none` if it cannot be opened or read; `from_utf8_lossy` makes code points of
-- bytes.
unfoldable pub session_file_message_version : (Text → Text) → Option Text → Option ℤ
unfolding lines header_version trim_end
session_file_message_version from_utf8_lossy none = none
session_file_message_version from_utf8_lossy (some file) =
    elim (lines (from_utf8_lossy (take session_header_window file))) [
      | [] ↦ none
      | l ∷ ls ↦ if not (text_eq (trim_end is_return l) rule) then none else header_version ls
    ]

abbrev pub shown : ℤ → Text
shown (pos n) = decimal n
shown (negsuc n) = b'-' ∷ decimal (suc n)

-- `name` is the file name
unfoldable pub session_version_rejection : Text → ℤ → Text
unfolding decimal
session_version_rejection name found =
    codes "Session file "
    ++ name
    ++ codes " is alayacore protocol v"
    ++ shown found
    ++ codes "; this AlayaFace and the alayacore it bundles speak v"
    ++ decimal supported_message_version
    ++ codes " and will not load it (the file was not modified)"

unfoldable pub session_file_rejection : (Text → Text) → Option Text → Text → Option Text
unfolding session_file_message_version is_supported session_version_rejection
session_file_rejection from_utf8_lossy file name =
    elim (session_file_message_version from_utf8_lossy file) [
      | none ↦ none
      | some found ↦
          if not (is_supported found) then some (session_version_rejection name found) else none
    ]

pub data VersionError : Type 0 where
  exited_early : VersionError
  unreadable : WireError → VersionError
  unexpected_frame : Frame → VersionError
  malformed_frame : VersionError
  other_message : Text → VersionError
  no_version : VersionError
  incompatible : ℤ → VersionError

module _ (serde : Serde) (as_i64 : serde.Value → Option ℤ) where
  -- the value of a frame with the tag of a system message
  unfoldable pub check_version_frame : Text → Result VersionError (Unit {0})
  unfolding is_supported
  check_version_frame value = elim (serde.envelope value) [
    | none ↦ err malformed_frame
    | some env ↦
        if not (text_eq env.msg_type (codes "version"))
        then err (other_message env.msg_type)
        else elim (and_then (serde.get env.body (codes "message_version")) as_i64) [
          | none ↦ err no_version
          | some observed ↦
              if not (is_supported observed) then err (incompatible observed) else ok tt
        ]
  ]

  unfoldable pub read_version_frame : Reader → Result VersionError (Unit {0})
  unfolding read_frame check_version_frame
  read_version_frame reader = elim (read_frame reader).0 [
    | err e ↦ err (unreadable e)
    | ok none ↦ err exited_early
    | ok (some frame) ↦
        if not (text_eq frame.tag tag_system_msg)
        then err (unexpected_frame frame)
        else check_version_frame frame.value
  ]
