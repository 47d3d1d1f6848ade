-- ===== src/Wire/Progress.antt =====
-- A frame that is read takes something from the stream.
use alayaface.Prelude.{
  ℕ, zero, suc, ◌+◌, ◌≤◌, ◌<◌, ◌≡◌, Option, none, some, [], ◌∷◌, ◌++◌, arith, Text, length, take,
  ltb, Option-cases, Bool-cases, inl, inr, Result, ok, ok_of_bind,
}
use alayaface.Wire.{
  Frame, WireError, max_frame_size, is_newline, interrupted, failed, available, Reader, consume,
  read_line, read_frame, decode_some,
}
use native.Mathlib.Numerals.{add-one}
use alayaface.Wire.Bytes.{position, drop}
use alayaface.Wire.Reading.{read_line_long, read_line_more, read_line_found}

-- An upper bound of the calls of `fill_buf` and of the bytes that are left.
abbrev pub size : Reader → ℕ
size [] = 0
size (interrupted ∷ reader) = suc (size reader)
size (failed e ∷ reader) = suc (size reader)
size (available bytes ∷ reader) = suc (length bytes + size reader)

abbrev IsFound : Result WireError (Option Text) × Reader → ℕ → Type 0
IsFound r n = (line : Text) → r.0 ≡ ok (some line) → size r.1 < n

length-drop : (n : ℕ) (bytes : Text) → length (drop n bytes) ≤ length bytes
unfolding drop
length-drop zero bytes = omega arith
length-drop (suc n) [] = omega arith
length-drop (suc n) (b ∷ bs) = omega (arith, length-drop n bs)

size-consume :
    (i b : ℕ) (bs : Text) (reader : Reader)
    → size (consume (suc i) (b ∷ bs) reader) < suc (suc (length bs) + size reader)
unfolding drop
size-consume i b bs reader = by_rest (drop i bs) (length-drop i bs)
  where
    by_rest :
        (rest : Text)
        → length rest ≤ length bs
        → size (elim rest [ [] ↦ reader | c ∷ cs ↦ available (c ∷ cs) ∷ reader ])
          < suc (suc (length bs) + size reader)
    by_rest [] h = omega arith
    by_rest (c ∷ cs) h = omega arith

at_end : (line l : Text) → (read_line line []).0 ≡ ok (some l) → ⊥
unfolding read_line
at_end [] l h = cc
at_end (b ∷ bs) l h = cc

at_last :
    (line : Text) (reader : Reader) (l : Text)
    → (read_line line (available [] ∷ reader)).0 ≡ ok (some l)
    → ⊥
unfolding read_line
at_last [] reader l h = cc
at_last (b ∷ bs) reader l h = cc

failing :
    (line : Text) (e : ℕ) (reader : Reader) (l : Text)
    → (read_line line (failed e ∷ reader)).0 ≡ ok (some l)
    → ⊥
unfolding read_line
failing line e reader l h = cc

again :
    (line : Text) (reader : Reader) (l : Text)
    → (read_line line (interrupted ∷ reader)).0 ≡ ok (some l)
    → IsFound (read_line line reader) (size reader)
    → size (read_line line (interrupted ∷ reader)).1 < suc (size reader)
unfolding read_line
again line reader l h less = omega (arith, less l h)

read_line-size : (line : Text) (reader : Reader) → IsFound (read_line line reader) (size reader)
read_line-size line [] = λ l h. absurd (at_end line l h)
read_line-size line (interrupted ∷ reader) =
    λ l h. again line reader l h (read_line-size line reader)
read_line-size line (failed e ∷ reader) = λ l h. absurd (failing line e reader l h)
read_line-size line (available [] ∷ reader) = λ l h. absurd (at_last line reader l h)
read_line-size line (available (b ∷ bs) ∷ reader) =
    let more = read_line-size (line ++ b ∷ bs) reader in
    elim (Option-cases (position is_newline (b ∷ bs))) [
      | inl e ↦ elim (Bool-cases (ltb max_frame_size (length (line ++ b ∷ bs)))) [
        | inl long ↦ rw (read_line_long line b bs reader e long) (λ l h. cc)
        | inr fits ↦ rw (read_line_more line b bs reader e fits) (λ l h. omega (arith, more l h))
      ]
      | inr (i, e) ↦
          rw (read_line_found line b bs reader i e)
            (elim (Bool-cases (ltb max_frame_size (length (line ++ take i (b ∷ bs)) + 1))) [
              | inl long ↦ rw long (λ l h. cc)
              | inr fits ↦ rw (fits, add-one) (λ l h. size-consume i b bs reader)
            ])
    ]

-- Every frame that is read makes the stream smaller, also where a read fails later on.
pub read_frame-size :
    (reader : Reader) (f : Frame)
    → (read_frame reader).0 ≡ ok (some f)
    → size (read_frame reader).1 < size reader
unfolding read_frame
read_frame-size reader f h =
    let (found, e, d) = ok_of_bind (read_line [] reader).0 decode_some h in from_line found e d
  where
    from_line :
        (found : Option Text)
        → (read_line [] reader).0 ≡ ok found
        → decode_some found ≡ ok (some f)
        → size (read_line [] reader).1 < size reader
    from_line none e d = cc
    from_line (some line) e d = read_line-size [] reader line e
