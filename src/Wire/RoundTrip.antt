-- ===== src/Wire/RoundTrip.antt =====
-- What `encode` writes, `read_frame` reads.
use alayaface.Prelude.{
  ℕ, ◌+◌, ◌≤◌, ◌≡◌, refl, ap, ◌∙◌, true, false, some, [], ◌∷◌, ◌++◌, append_assoc, arith, Text,
  length, length-append, all, any, any-append, le→ltb, ok,
}
use alayaface.Wire.{
  max_frame_size, is_letter, is_line_end, is_newline, encode, decode_stripped, strip_cr,
  decode_line, Reader, read_frame,
}
use alayaface.Wire.Utf8.{is_utf8}
use alayaface.Wire.Bytes.{cut}
use alayaface.Wire.Encoding.{IsSendable, IsSendable-encode}
use alayaface.Wire.Reading.{
  bytes_of, IsReady, first_line, with_rest, first_frame, read_frame-first_frame,
}

pub letters_one_line : (tag : Text) → all is_letter tag ≡ true → any is_line_end tag ≡ false
unfolding is_letter
letters_one_line [] h = refl
letters_one_line (b ∷ bs) h = ground (arith, letters_one_line bs)

strip_cr_id : (line : Text) → any is_line_end line ≡ false → strip_cr line ≡ line
unfolding strip_cr
strip_cr_id [] h = refl
strip_cr_id (b ∷ []) h = ground arith
strip_cr_id (b ∷ c ∷ rest) h = ground (arith, strip_cr_id (c ∷ rest))

pub any-newline : (line : Text) → any is_line_end line ≡ false → any is_newline line ≡ false
any-newline [] h = refl
any-newline (b ∷ bs) h = ground (arith, any-newline bs)

pub decode_line-strip_cr : (line : Text) → decode_line line ≡ decode_stripped (strip_cr line)
unfolding decode_line
decode_line-strip_cr line = refl

decode_stripped-append :
    (a b : ℕ) (value : Text)
    → IsSendable (a ∷ b ∷ []) value
    → is_utf8 value ≡ true
    → decode_stripped (a ∷ b ∷ value) ≡ ok (record { tag = a ∷ b ∷ []; value = value })
unfolding decode_stripped
decode_stripped-append a b value s u = ground (arith, s.letters, s.object)

-- The line of a frame that may be sent is decoded to that frame.
pub decode_line-append :
    (tag value : Text)
    → IsSendable tag value
    → is_utf8 value ≡ true
    → decode_line (tag ++ value) ≡ ok (record { tag = tag; value = value })
decode_line-append [] value s u = absurd (omega (arith, s.two))
decode_line-append (a ∷ []) value s u = absurd (omega (arith, s.two))
decode_line-append (a ∷ b ∷ c ∷ tag) value s u = absurd (omega (arith, s.two))
decode_line-append (a ∷ b ∷ []) value s u =
    let whole : any is_line_end (a ∷ b ∷ value) ≡ false =
      ground (arith, letters_one_line (a ∷ b ∷ []) s.letters, s.one_line) in
    decode_line-strip_cr (a ∷ b ∷ value)
    ∙ ap decode_stripped (strip_cr_id (a ∷ b ∷ value) whole)
    ∙ decode_stripped-append a b value s u

cut_found :
    (line rest : Text)
    → any is_newline line ≡ false
    → cut is_newline (line ++ (b'\n' ∷ rest)) ≡ some (line, rest)
unfolding cut
cut_found [] rest h = refl
cut_found (b ∷ bs) rest h = ground (arith, cut_found bs rest)

first_line-line :
    (line rest : Text)
    → any is_newline line ≡ false
    → length line + 1 ≤ max_frame_size
    → first_line (line ++ (b'\n' ∷ rest)) ≡ ok (some (line, rest))
unfolding first_line
first_line-line line rest whole short = rw (first_line, cut_found line rest whole, le→ltb _ _ short)

pub first_frame-encode :
    (tag value buf rest : Text)
    → encode tag value ≡ ok buf
    → is_utf8 value ≡ true
    → first_frame (buf ++ rest) ≡ ok (some (record { tag = tag; value = value }, rest))
unfolding first_frame
first_frame-encode tag value buf rest e u =
    let (s, written) = IsSendable-encode tag value buf e in
    let line = tag ++ value in
    let whole : any is_line_end line ≡ false =
      ground
        (arith, any-append is_line_end tag value, letters_one_line tag s.letters, s.one_line) in
    let short : length line + 1 ≤ max_frame_size = omega (arith, length-append tag value, s.fits) in
    rw (
      written,
      append_assoc line (b'\n' ∷ []) rest,
      first_line-line line rest (any-newline line whole) short,
      decode_line-append tag value s u,
    )

-- A frame that `encode` accepts is written as bytes that `read_frame` reads back as that frame, out
-- of any stream that begins with them, however it is buffered; what follows stays in the stream.
pub read_frame-encode :
    (tag value buf rest : Text) (reader : Reader)
    → encode tag value ≡ ok buf
    → is_utf8 value ≡ true
    → IsReady reader
    → bytes_of reader ≡ buf ++ rest
    → with_rest (read_frame reader) ≡ ok (some (record { tag = tag; value = value }, rest))
read_frame-encode tag value buf rest reader e u ready holds =
    read_frame-first_frame reader ready
    ∙ ap first_frame holds
    ∙ first_frame-encode tag value buf rest e u
