-- ===== src/Tests/WireTests.antt =====
-- The codec on a stream of two frames that arrives in five pieces.
use alayaface.Prelude.{ℕ, ◌≡◌, refl, true, some, [], ◌∷◌, Text, codes, ok, err}
use alayaface.Wire.{
  Frame, raw_newline, is_letter, interrupted, available, Reader, encode, read_frame, decode_line,
  max_frame_size,
}
use alayaface.Wire.Utf8.{is_utf8}
use alayaface.Wire.Bytes.{position, drop}
use alayaface.Wire.Reading.{bytes_of, with_rest, first_frame, read_frame-first_frame}
use alayaface.Wire.RoundTrip.{read_frame-encode}
use alayaface.Wire.Soundness.{IsDecoded, read_frame-IsDecoded}
use alayaface.Wire.CarriageReturn.{decode_line-not_encode}

abbrev pub tag : Text
tag = codes "SM"

abbrev pub value : Text
value = codes "{\"a\":1}"

abbrev pub stream : Reader
stream =
    available (codes "S")
    ∷ interrupted
    ∷ available (codes "M{\"a\":")
    ∷ available (codes "1}\nUE")
    ∷ available (codes "\r\n")
    ∷ []

abbrev rest : Text
rest = codes "UE\r\n"

abbrev here : Frame
here = record { tag = tag; value = value }

encode-value : encode tag value ≡ ok (codes "SM{\"a\":1}\n")
unfolding encode is_letter position max_frame_size
encode-value = refl

encode_errors : encode tag (codes "{\r}") ≡ err (raw_newline 1)
unfolding encode is_letter position
encode_errors = refl

value-is_utf8 : is_utf8 value ≡ true
unfolding is_utf8
value-is_utf8 = refl

read_frame-stream :
    read_frame stream ≡ (ok (some here), available (codes "UE") ∷ available (codes "\r\n") ∷ [])
unfolding read_frame is_utf8 is_letter position drop max_frame_size
read_frame-stream = refl

read_frame-first_frame_example : with_rest (read_frame stream) ≡ first_frame (bytes_of stream)
read_frame-first_frame_example = read_frame-first_frame stream tt

read_frame-encode_example : with_rest (read_frame stream) ≡ ok (some (here, rest))
read_frame-encode_example =
    read_frame-encode tag value (codes "SM{\"a\":1}\n") rest stream encode-value value-is_utf8 tt
      refl

read_frame-IsDecoded_example : IsDecoded here
read_frame-IsDecoded_example =
    read_frame-IsDecoded stream (available (codes "UE") ∷ available (codes "\r\n") ∷ []) here tt
      read_frame-stream

decode_line-not_encode_example :
    ((i : ℕ) × (encode (codes "UX") (codes "{\r}") ≡ err (raw_newline i)))
    × (decode_line (codes "UX{\r}") ≡ ok (record { tag = codes "UX"; value = codes "{\r}" }))
unfolding is_letter is_utf8
decode_line-not_encode_example =
    decode_line-not_encode b'U' b'X' (codes "{\r}") refl refl refl refl refl refl
