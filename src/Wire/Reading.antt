-- ===== src/Wire/Reading.antt =====
-- `read_frame` against the lines of the whole byte stream: how the stream is cut into buffers, and
-- where a read is interrupted, changes nothing.
use alayaface.Prelude.{
  ℕ, suc, ◌+◌, ◌≤◌, ◌<◌, length-append, ◌≡◌, refl, ap, Bool, true, false, Option, none, some, [],
  ◌∷◌, ◌++◌, append-nil, append_assoc, arith, length, take, is_empty, ltb, ltb→lt, ltb→le, le→ltb,
  sym, ◌∙◌, subst, if◌then◌else◌, Option-cases, Bool-cases, inl, inr, Text, Result, ok, err, ◌>>=◌,
}
use native.Mathlib.Numerals.{add-one}
use alayaface.Wire.{
  Frame, WireError, frame_too_large, unterminated, max_frame_size, is_newline, interrupted, failed,
  available, Reader, consume, read_line, read_frame, decode_line, decode_some,
}
use alayaface.Wire.Bytes.{position, drop, cut, cut-none, cut-some, cut-append_some, cut-append_none}

-- The bytes that the stream still holds.
abbrev pub bytes_of : Reader → Text
bytes_of [] = []
bytes_of (interrupted ∷ reader) = bytes_of reader
bytes_of (failed e ∷ reader) = bytes_of reader
bytes_of (available bytes ∷ reader) = bytes ++ bytes_of reader

-- No read fails, and no buffer is empty before the end. A read may be interrupted.
abbrev pub IsReady : Reader → Type 0
IsReady [] = Unit
IsReady (interrupted ∷ reader) = IsReady reader
IsReady (failed e ∷ reader) = ⊥
IsReady (available [] ∷ reader) = ⊥
IsReady (available (b ∷ bs) ∷ reader) = IsReady reader

-- The first line of a byte string with what follows it, as the protocol has it.
unfoldable pub first_line : Text → Result WireError (Option (Text × Text))
first_line bytes = elim (cut is_newline bytes) [
  | some (line, rest) ↦
      if ltb max_frame_size (length line + 1) then err frame_too_large else ok (some (line, rest))
  | none ↦
      if is_empty bytes
      then ok none
      else if ltb max_frame_size (length bytes)
      then err frame_too_large
      else err unterminated
]

-- The line that was read, with the bytes that are left.
abbrev pub with_rest {ℓ} :
    {A : Type ℓ} → Result WireError (Option A) × Reader → Result WireError (Option (A × Text))
with_rest (ok none, reader) = ok none
with_rest (ok (some a), reader) = ok (some (a, bytes_of reader))
with_rest (err e, reader) = err e

bytes_of-consume :
    (n : ℕ) (buffer : Text) (reader : Reader)
    → bytes_of (consume n buffer reader) ≡ drop n buffer ++ bytes_of reader
bytes_of-consume n buffer reader = by_rest (drop n buffer)
  where
    by_rest :
        (rest : Text)
        → bytes_of (elim rest [ [] ↦ reader | b ∷ bs ↦ available (b ∷ bs) ∷ reader ])
          ≡ rest ++ bytes_of reader
    by_rest [] = refl
    by_rest (b ∷ bs) = refl

-- A line that has grown past the maximum is refused, whatever follows.
first_line_oversized :
    (line rest : Text)
    → cut is_newline line ≡ none
    → max_frame_size < length line
    → first_line (line ++ rest) ≡ err frame_too_large
unfolding first_line
first_line_oversized [] rest whole long = absurd (omega arith)
first_line_oversized (b ∷ bs) rest whole long = elim (Option-cases (cut is_newline rest)) [
  | inl e ↦
      rw (first_line, cut-append_none is_newline (b ∷ bs) rest whole, e)
        (ground (arith, length-append (b ∷ bs) rest))
  | inr (c, e) ↦
      rw (first_line, cut-append_none is_newline (b ∷ bs) rest whole, e)
        (ground (arith, length-append (b ∷ bs) c.0))
]

pub first_line_end :
    (line : Text)
    → cut is_newline line ≡ none
    → length line ≤ max_frame_size
    → first_line line ≡ (if is_empty line then ok none else err unterminated)
unfolding first_line
first_line_end line whole short = rw (first_line, whole, le→ltb _ _ short)

module _ (line buffer rest : Text) (whole : cut is_newline line ≡ none) (i : ℕ) where
  first_line_found :
      position is_newline buffer ≡ some i
      → first_line (line ++ (buffer ++ rest)) ≡ (
          if ltb max_frame_size (length (line ++ take i buffer) + 1)
          then err frame_too_large
          else ok (some (line ++ take i buffer, drop (suc i) buffer ++ rest)))
  unfolding first_line
  first_line_found e = rw (
    first_line,
    cut-append_none is_newline line (buffer ++ rest) whole,
    cut-append_some is_newline buffer rest _ _ (cut-some is_newline buffer i e),
  )

-- The three ways in which a buffer is read.
module _ (line : Text) (b : ℕ) (bs : Text) (reader : Reader) where
  pub read_line_long :
      position is_newline (b ∷ bs) ≡ none
      → ltb max_frame_size (length (line ++ b ∷ bs)) ≡ true
      → read_line line (available (b ∷ bs) ∷ reader) ≡ (err frame_too_large, reader)
  unfolding read_line
  read_line_long e long = rw (read_line, e, long)

  pub read_line_more :
      position is_newline (b ∷ bs) ≡ none
      → ltb max_frame_size (length (line ++ b ∷ bs)) ≡ false
      → read_line line (available (b ∷ bs) ∷ reader) ≡ read_line (line ++ b ∷ bs) reader
  unfolding read_line
  read_line_more e fits = rw (read_line, e, fits)

  pub read_line_found :
      (i : ℕ)
      → position is_newline (b ∷ bs) ≡ some i
      → read_line line (available (b ∷ bs) ∷ reader) ≡ (
          if ltb max_frame_size (length (line ++ take i (b ∷ bs)) + 1)
          then (err frame_too_large, available (b ∷ bs) ∷ reader)
          else (ok (some (line ++ take i (b ∷ bs))), consume (i + 1) (b ∷ bs) reader))
  unfolding read_line
  read_line_found i e = rw (read_line, e)

  with_rest_found :
      (i : ℕ) (long : Bool)
      → with_rest (
          if long
          then (err frame_too_large, available (b ∷ bs) ∷ reader)
          else (ok (some (line ++ take i (b ∷ bs))), consume (i + 1) (b ∷ bs) reader))
        ≡ (if long
            then err frame_too_large
            else ok (some (line ++ take i (b ∷ bs), drop (suc i) (b ∷ bs) ++ bytes_of reader)))
  with_rest_found i true = refl
  with_rest_found i false = rw (bytes_of-consume (i + 1) (b ∷ bs) reader, add-one)

read_line_again :
    (line : Text) (reader : Reader)
    → with_rest (read_line line (interrupted ∷ reader)) ≡ with_rest (read_line line reader)
unfolding read_line
read_line_again line reader = refl

read_line_end :
    (line : Text)
    → with_rest (read_line line []) ≡ (if is_empty line then ok none else err unterminated)
unfolding read_line
read_line_end [] = refl
read_line_end (b ∷ bs) = refl

-- The loop, entered with a line that is not complete, reads the first line of the stream.
read_line-first_line :
    (line : Text) (reader : Reader)
    → IsReady reader
    → cut is_newline line ≡ none
    → length line ≤ max_frame_size
    → with_rest (read_line line reader) ≡ first_line (line ++ bytes_of reader)
read_line-first_line line [] ready whole short =
    read_line_end line ∙ rw (append-nil, first_line_end line whole short)
read_line-first_line line (interrupted ∷ reader) ready whole short =
    read_line_again line reader ∙ read_line-first_line line reader ready whole short
read_line-first_line line (failed e ∷ reader) ready whole short = absurd ready
read_line-first_line line (available [] ∷ reader) ready whole short = absurd ready
read_line-first_line line (available (b ∷ bs) ∷ reader) ready whole short =
    elim (Option-cases (position is_newline (b ∷ bs))) [
      | inl e ↦
          let joined : cut is_newline (line ++ b ∷ bs) ≡ none =
            rw (cut-append_none is_newline line (b ∷ bs) whole, cut-none is_newline (b ∷ bs) e) in
          elim (Bool-cases (ltb max_frame_size (length (line ++ b ∷ bs)))) [
            | inl long ↦ rw (read_line_long line b bs reader e long) (
                rw (← append_assoc line (b ∷ bs) (bytes_of reader))
                  (rw (first_line_oversized _ (bytes_of reader) joined (ltb→lt _ _ long))))
            | inr fits ↦ rw (read_line_more line b bs reader e fits) (
                rw (← append_assoc line (b ∷ bs) (bytes_of reader))
                  (read_line-first_line (line ++ b ∷ bs) reader ready joined (ltb→le _ _ fits)))
          ]
      | inr (i, e) ↦ rw (read_line_found line b bs reader i e) (
          with_rest_found line b bs reader i _
          ∙ sym (first_line_found line (b ∷ bs) (bytes_of reader) whole i e))
    ]

consume-IsReady :
    (n : ℕ) (buffer : Text) (reader : Reader) → IsReady reader → IsReady (consume n buffer reader)
consume-IsReady n buffer reader ready = by_rest (drop n buffer)
  where
    by_rest :
        (rest : Text) → IsReady (elim rest [ [] ↦ reader | b ∷ bs ↦ available (b ∷ bs) ∷ reader ])
    by_rest [] = ready
    by_rest (b ∷ bs) = ready

left_again :
    (line : Text) (reader : Reader)
    → (read_line line (interrupted ∷ reader)).1 ≡ (read_line line reader).1
unfolding read_line
left_again line reader = refl

-- What is left of a stream that can be read can be read.
read_line-IsReady :
    (line : Text) (reader : Reader) → IsReady reader → IsReady (read_line line reader).1
read_line-IsReady line [] ready = unfold read_line in tt
read_line-IsReady line (interrupted ∷ reader) ready =
    subst IsReady (sym (left_again line reader)) (read_line-IsReady line reader ready)
read_line-IsReady line (failed e ∷ reader) ready = absurd ready
read_line-IsReady line (available [] ∷ reader) ready = absurd ready
read_line-IsReady line (available (b ∷ bs) ∷ reader) ready =
    let more = read_line-IsReady (line ++ b ∷ bs) reader ready in
    elim (Option-cases (position is_newline (b ∷ bs))) [
      | inl e ↦ elim (Bool-cases (ltb max_frame_size (length (line ++ b ∷ bs)))) [
        | inl long ↦ rw (read_line_long line b bs reader e long) ready
        | inr fits ↦ rw (read_line_more line b bs reader e fits) more
      ]
      | inr (i, e) ↦
          rw (read_line_found line b bs reader i e)
            (elim (Bool-cases (ltb max_frame_size (length (line ++ take i (b ∷ bs)) + 1))) [
              | inl long ↦ rw long ready
              | inr fits ↦ rw fits (consume-IsReady (i + 1) (b ∷ bs) reader ready)
            ])
    ]

pub read_frame-IsReady : (reader : Reader) → IsReady reader → IsReady (read_frame reader).1
unfolding read_frame
read_frame-IsReady reader ready = read_line-IsReady [] reader ready

abbrev pub decode_first : Option (Text × Text) → Result WireError (Option (Frame × Text))
decode_first none = ok none
decode_first (some (line, rest)) = do frame ← decode_line line; ok (some (frame, rest))

-- The first frame of a byte string.
unfoldable pub first_frame : Text → Result WireError (Option (Frame × Text))
first_frame bytes = first_line bytes >>= decode_first

with_rest-decode :
    (r : Result WireError (Option Text)) (reader : Reader)
    → with_rest (r >>= decode_some, reader) ≡ (with_rest (r, reader) >>= decode_first)
with_rest-decode (ok none) reader = refl
with_rest-decode (ok (some line)) reader = by_frame (decode_line line)
  where
    by_frame :
        (f : Result WireError Frame)
        → with_rest (f >>= (λ frame. ok (some frame)), reader)
          ≡ (f >>= (λ frame. ok (some (frame, bytes_of reader))))
    by_frame (ok f) = refl
    by_frame (err e) = refl
with_rest-decode (err e) reader = refl

-- On a stream whose reads do not fail, `read_frame` returns the first frame of the bytes that the
-- stream holds, or its error, however those bytes are split into buffers and wherever a read is
-- interrupted; and it leaves exactly the bytes behind that frame.
pub read_frame-first_frame :
    (reader : Reader)
    → IsReady reader
    → with_rest (read_frame reader) ≡ first_frame (bytes_of reader)
unfolding read_frame first_frame
read_frame-first_frame reader ready =
    with_rest-decode (read_line [] reader).0 (read_line [] reader).1
    ∙ ap (λ r. r >>= decode_first)
        (read_line-first_line [] reader ready (unfold cut in refl) (omega arith))
