-- ===== src/Wire.antt =====
-- src-tauri/src/wire.rs: the frame codec. A `&str` is the list of its UTF-8 bytes, and an
-- `io::Error` is the reason that its message gives.
pub mod Utf8
pub mod Bytes
pub mod Reading
pub mod Progress
pub mod RoundTrip
pub mod Soundness
pub mod CarriageReturn
pub mod Encoding
use alayaface.Prelude.{
  ℕ, ◌+◌, Bool, true, not, ◌&&◌, ◌||◌, Option, none, some, List, [], ◌∷◌, ◌++◌, Text, codes, length,
  take, all, is_empty, ltb, leb, ◌==◌, if◌then◌else◌, Result, ok, err, ◌>>=◌,
}
use Utf8.{is_utf8}
use Bytes.{position, drop}

abbrev pub tag_user_x : Text
tag_user_x = codes "UX"

abbrev pub tag_user_end : Text
tag_user_end = codes "UE"

abbrev pub tag_cmd_input : Text
tag_cmd_input = codes "CI"

abbrev pub tag_assistant_x : Text
tag_assistant_x = codes "AX"

abbrev pub tag_assistant_f : Text
tag_assistant_f = codes "AF"

abbrev pub tag_user_f : Text
tag_user_f = codes "UF"

abbrev pub tag_system_msg : Text
tag_system_msg = codes "SM"

abbrev pub tag_cmd_output : Text
tag_cmd_output = codes "CO"

abbrev pub tag_assistant_x_delta : Text
tag_assistant_x_delta = codes "Ax"

abbrev pub tag_assistant_f_delta : Text
tag_assistant_f_delta = codes "Af"

abbrev pub tag_user_f_delta : Text
tag_user_f_delta = codes "Uf"

pub record Frame : Type 0 where
  pub tag : Text
  pub value : Text

-- 64 << 20; shut, so that no proof counts to it
unfoldable pub max_frame_size : ℕ
max_frame_size = 67_108_864

pub data WireError : Type 0 where
  bad_tag bad_value not_utf8 : WireError
  raw_newline : ℕ → WireError
  frame_too_large unterminated blank_line short_line no_tag : WireError
  io : ℕ → WireError

unfoldable pub is_letter : ℕ → Bool
is_letter b = (leb b'A' b && leb b b'Z') || (leb b'a' b && leb b b'z')

-- `value.starts_with('{')`
abbrev pub starts_with_brace : Text → Bool
starts_with_brace [] = Bool.false
starts_with_brace (b ∷ bs) = b == b'{'

-- `['\n', '\r']` as a pattern
abbrev pub is_line_end : ℕ → Bool
is_line_end b = b == b'\n' || b == b'\r'

abbrev pub is_newline : ℕ → Bool
is_newline b = b == b'\n'

unfoldable pub encode : Text → Text → Result WireError Text
encode tag value =
    if not (length tag == 2) || not (all is_letter tag)
    then err bad_tag
    else if not (is_empty value) && not (starts_with_brace value)
    then err bad_value
    else elim (position is_line_end value) [
      | some i ↦ err (raw_newline i)
      | none ↦
          if ltb max_frame_size (length tag + length value + 1)
          then err frame_too_large
          else ok (tag ++ value ++ b'\n' ∷ [])
    ]

-- The writer is the caller's: `write_all` of a pipe, or of a buffer.
unfoldable pub write_frame {ℓ} :
    {W : Type ℓ} → (W → Text → Result WireError W) → W → Text → Text → Result WireError W
write_frame write_all writer tag value = do buf ← encode tag value; write_all writer buf

-- What one call of `fill_buf` finds: an error, or the bytes that are buffered. A reader is the list
-- of what its calls will find, and its end is the end of the stream.
pub data Fill : Type 0 where
  interrupted : Fill
  failed : ℕ → Fill
  available : Text → Fill

abbrev pub Reader : Type 0
Reader = List Fill

-- `reader.consume(n)` on the buffer at hand
abbrev pub consume : ℕ → Text → Reader → Reader
consume n buffer reader = elim (drop n buffer) [
  | [] ↦ reader
  | b ∷ bs ↦ available (b ∷ bs) ∷ reader
]

abbrev at_eof : Text → Result WireError (Option Text)
at_eof line = if is_empty line then ok none else err unterminated

-- the loop of `read_frame`, which accumulates one line
unfoldable pub read_line : Text → Reader → Result WireError (Option Text) × Reader
read_line line [] = (at_eof line, [])
read_line line (interrupted ∷ reader) = read_line line reader
read_line line (failed e ∷ reader) = (err (io e), reader)
read_line line (available [] ∷ reader) = (at_eof line, reader)
read_line line (available (b ∷ bs) ∷ reader) = elim (position is_newline (b ∷ bs)) [
  | some pos ↦
      if ltb max_frame_size (length (line ++ take pos (b ∷ bs)) + 1)
      then (err frame_too_large, available (b ∷ bs) ∷ reader)
      else (ok (some (line ++ take pos (b ∷ bs))), consume (pos + 1) (b ∷ bs) reader)
  | none ↦
      let rest = read_line (line ++ b ∷ bs) reader in
      if ltb max_frame_size (length (line ++ b ∷ bs)) then (err frame_too_large, reader) else rest
]

-- the value behind the two bytes of a tag
decode_value : Text → Text → Result WireError Frame
decode_value tag value =
    if not (is_utf8 value)
    then err not_utf8
    else if not (is_empty value) && not (starts_with_brace value)
    then err bad_value
    else ok (record { tag = tag; value = value })

-- `decode_line` behind the removal of the carriage return
unfoldable pub decode_stripped : Text → Result WireError Frame
unfolding decode_value
decode_stripped [] = err blank_line
decode_stripped (a ∷ []) = err short_line
decode_stripped (a ∷ b ∷ value) =
    if not (is_letter a) || not (is_letter b) then err no_tag else decode_value (a ∷ b ∷ []) value

-- `line.split_last()`, with the last byte dropped if it is a carriage return
unfoldable pub strip_cr : Text → Text
strip_cr [] = []
strip_cr (b ∷ []) = if b == b'\r' then [] else b ∷ []
strip_cr (b ∷ c ∷ rest) = b ∷ strip_cr (c ∷ rest)

unfoldable pub decode_line : Text → Result WireError Frame
unfolding strip_cr decode_stripped
decode_line line = decode_stripped (strip_cr line)

-- `decode_line(&line).map(Some)` behind the loop
abbrev pub decode_some : Option Text → Result WireError (Option Frame)
decode_some none = ok none
decode_some (some line) = do frame ← decode_line line; ok (some frame)

unfoldable pub read_frame : Reader → Result WireError (Option Frame) × Reader
unfolding read_line decode_line
read_frame reader = let (line, rest) = read_line [] reader in (line >>= decode_some, rest)
