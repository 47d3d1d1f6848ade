-- ===== src/Wire/Soundness.antt =====
-- What `read_frame` may return: only frames that the protocol allows, but for a carriage return
-- inside the value; and a frame that is cut short is an error.
use alayaface.Prelude.{
  ℕ, ◌+◌, ◌≤◌, ◌≡◌, ◌≢◌, refl, ap, sym, ◌∙◌, subst, Bool, true, false, ◌||◌, inl, inr, Option, none,
  some, [], ◌∷◌, ◌++◌, arith, Text, length, length-append, all, any, any-append, is_empty, ◌==◌,
  Option-cases, ok, err, ok_of_bind,
}
use alayaface.Wire.{
  Frame, unterminated, max_frame_size, is_letter, starts_with_brace, is_line_end, is_newline,
  encode, decode_stripped, strip_cr, decode_line, Reader, read_frame,
}
use alayaface.Wire.Utf8.{is_utf8}
use alayaface.Wire.Bytes.{cut}
use alayaface.Wire.Encoding.{IsSendable-encode, encode-of_IsSendable, cut-none-any}
use alayaface.Wire.Reading.{
  bytes_of, IsReady, first_line, with_rest, first_line_end, decode_first, first_frame,
  read_frame-first_frame,
}
use alayaface.Wire.RoundTrip.{any-newline, letters_one_line}

abbrev pub is_cr : ℕ → Bool
is_cr b = b == b'\r'

-- What holds of every frame that a line decodes to; the carriage return is the only thing that
-- `IsSendable` forbids and this does not.
pub record IsDecoded (frame : Frame) : Type 0 where
  pub two : length frame.tag ≡ 2
  pub letters : all is_letter frame.tag ≡ true
  pub object : (is_empty frame.value || starts_with_brace frame.value) ≡ true
  pub utf8 : is_utf8 frame.value ≡ true
  pub one_line : any is_newline frame.value ≡ false
  pub fits : length frame.tag + length frame.value + 1 ≤ max_frame_size

cut-some-any :
    (p : ℕ → Bool) (xs : Text) {before after : Text}
    → cut p xs ≡ some (before, after)
    → any p before ≡ false
unfolding cut
cut-some-any p [] h = cc
cut-some-any p (x ∷ xs) h = elim (Option-cases (cut p xs)) [
  | inl e ↦ ground arith
  | inr (c, e) ↦ ground (arith, cut-some-any p xs e)
]

first_line_lem :
    (bytes : Text) {line rest : Text}
    → first_line bytes ≡ ok (some (line, rest))
    → (any is_newline line ≡ false) × (length line + 1 ≤ max_frame_size)
unfolding first_line
first_line_lem bytes {line} {rest} h = elim (Option-cases (cut is_newline bytes)) [
  | inl e ↦ absurd (ground arith)
  | inr (c, e) ↦ ground (arith, cut-some-any is_newline bytes e)
]

strip_cr_keeps :
    (line : Text)
    → any is_newline line ≡ false
    → (any is_newline (strip_cr line) ≡ false) × (length (strip_cr line) ≤ length line)
unfolding strip_cr
strip_cr_keeps [] h = (refl, omega arith)
strip_cr_keeps (b ∷ []) h = ground arith
strip_cr_keeps (b ∷ c ∷ rest) h = ground (arith, strip_cr_keeps (c ∷ rest))

decode_stripped_lem :
    (line : Text) {frame : Frame}
    → decode_stripped line ≡ ok frame
    → any is_newline line ≡ false
    → length line + 1 ≤ max_frame_size
    → IsDecoded frame × (line ≡ frame.tag ++ frame.value)
unfolding decode_stripped
decode_stripped_lem [] h one fits = cc
decode_stripped_lem (a ∷ []) h one fits = cc
decode_stripped_lem (a ∷ b ∷ value) {frame} h one fits =
    subst (λ f. IsDecoded f × (a ∷ b ∷ value ≡ f.tag ++ f.value)) same (decoded, refl)
  where
    here : Frame
    here = record { tag = a ∷ b ∷ []; value = value }

    same : here ≡ frame
    same = ground arith

    decoded : IsDecoded here
    decoded = record {
      two = refl;
      letters = ground arith;
      object = ground arith;
      utf8 = ground arith;
      one_line = ground arith;
      fits = omega arith;
    }

decode_line_lem :
    (line : Text) {frame : Frame}
    → decode_line line ≡ ok frame
    → any is_newline line ≡ false
    → length line + 1 ≤ max_frame_size
    → IsDecoded frame × (strip_cr line ≡ frame.tag ++ frame.value)
unfolding decode_line
decode_line_lem line h one fits =
    let (one', shorter) = strip_cr_keeps line one in
    decode_stripped_lem (strip_cr line) h one' (omega (arith, shorter, fits))

first_frame-IsDecoded :
    (bytes : Text) {frame : Frame} {rest : Text}
    → first_frame bytes ≡ ok (some (frame, rest))
    → IsDecoded frame
unfolding first_frame
first_frame-IsDecoded bytes {frame} {rest} h =
    let (found, e, d) = ok_of_bind (first_line bytes) decode_first h in from_line found e d
  where
    from_line :
        (found : Option (Text × Text))
        → first_line bytes ≡ ok found
        → decode_first found ≡ ok (some (frame, rest))
        → IsDecoded frame
    from_line none e d = cc
    from_line (some (line, after)) e d =
        let (one, fits) = first_line_lem bytes e in
        let (f, decoded, same) = ok_of_bind (decode_line line) (λ x. ok (some (x, after))) d in
        let same' : f ≡ frame = cc in
        subst IsDecoded same' (decode_line_lem line decoded one fits).0

-- Every frame that `read_frame` returns has a tag of two letters, a value that is empty or begins an
-- object, is UTF-8 and holds no newline, and is within the maximum.
pub read_frame-IsDecoded :
    (reader rest : Reader) (frame : Frame)
    → IsReady reader
    → read_frame reader ≡ (ok (some frame), rest)
    → IsDecoded frame
read_frame-IsDecoded reader rest frame ready h =
    first_frame-IsDecoded (bytes_of reader)
      (sym (read_frame-first_frame reader ready) ∙ ap with_rest h)

no_line_end :
    (value : Text)
    → any is_newline value ≡ false
    → any is_cr value ≡ false
    → any is_line_end value ≡ false
no_line_end [] n c = refl
no_line_end (b ∷ bs) n c = ground (arith, no_line_end bs)

-- A frame that was read, if its value holds no carriage return, can be written again.
pub encode-read_frame :
    (reader rest : Reader) (frame : Frame)
    → IsReady reader
    → read_frame reader ≡ (ok (some frame), rest)
    → any is_cr frame.value ≡ false
    → encode frame.tag frame.value ≡ ok (frame.tag ++ frame.value ++ b'\n' ∷ [])
encode-read_frame reader rest frame ready h plain =
    let d = read_frame-IsDecoded reader rest frame ready h in
    encode-of_IsSendable frame.tag frame.value (record {
      two = d.two;
      letters = d.letters;
      object = d.object;
      one_line = no_line_end frame.value d.one_line plain;
      fits = d.fits;
    })

proper_part :
    (p : ℕ → Bool) (line part : Text) (end m : ℕ) (missing : Text)
    → line ++ end ∷ [] ≡ part ++ m ∷ missing
    → any p line ≡ false
    → (any p part ≡ false) × (length part ≤ length line)
proper_part p line [] end m missing e h = (refl, omega arith)
proper_part p [] (y ∷ []) end m missing e h = cc
proper_part p [] (y ∷ z ∷ ys) end m missing e h = cc
proper_part p (x ∷ xs) (y ∷ ys) end m missing e h =
    ground (arith, proper_part p xs ys end m missing)

-- A stream that ends inside a written frame is an error, never a frame and never a clean end.
pub read_frame_truncated :
    (tag value buf part missing : Text) (reader : Reader)
    → encode tag value ≡ ok buf
    → buf ≡ part ++ missing
    → part ≢ []
    → missing ≢ []
    → IsReady reader
    → bytes_of reader ≡ part
    → with_rest (read_frame reader) ≡ err unterminated
unfolding first_frame
read_frame_truncated tag value buf [] missing reader e cut_at p m ready holds = absurd (p refl)
read_frame_truncated tag value buf (b ∷ bs) [] reader e cut_at p m ready holds = absurd (m refl)
read_frame_truncated tag value buf (b ∷ bs) (c ∷ cs) reader e cut_at p m ready holds =
    let (s, written) = IsSendable-encode tag value buf e in
    let whole : any is_newline (tag ++ value) ≡ false = any-newline (tag ++ value) (
      ground
        (arith, any-append is_line_end tag value, letters_one_line tag s.letters, s.one_line)) in
    let (none_in, short) =
      proper_part is_newline (tag ++ value) (b ∷ bs) b'\n' c cs (sym written ∙ cut_at) whole in
    let fits : length (b ∷ bs) ≤ max_frame_size =
      omega (arith, short, length-append tag value, s.fits) in
    read_frame-first_frame reader ready
    ∙ ap first_frame holds
    ∙ ended (first_line_end (b ∷ bs) (cut-none-any is_newline (b ∷ bs) none_in) fits)
  where
    ended : first_line (b ∷ bs) ≡ err unterminated → first_frame (b ∷ bs) ≡ err unterminated
    ended h = rw (first_frame, h)
