-- ===== src/Reader/Delivery.antt =====
-- From the bytes of a stream of frames to the events of the client.
use alayaface.Prelude.{
  ℕ, zero, suc, ◌<◌, ◌≡◌, refl, ap, ◌∙◌, Bool, true, ◌||◌, Option, none, some, List, [], ◌∷◌, ◌++◌,
  arith, Text, codes, length, Result, ok, err, ◌>>=◌, ok_of_bind,
}
use alayaface.Json.{Serde}
use alayaface.Wire.{Frame, WireError, Reader, read_frame, encode}
use alayaface.Wire.Utf8.{is_utf8}
use alayaface.Wire.Reading.{
  bytes_of, IsReady, with_rest, first_frame, first_line, read_frame-IsReady, read_frame-first_frame,
}
use alayaface.Wire.Bytes.{cut}
use alayaface.Wire.RoundTrip.{read_frame-encode}
use alayaface.Reader.{State, dispatch_frame, hang_up}
use alayaface.Reader.Ending.{loop, after, loop-none, loop_frame}

-- The bytes of frames that are written one after the other.
unfoldable pub encode_all : List Frame → Result WireError Text
encode_all [] = ok []
encode_all (f ∷ fs) = do buf ← encode f.tag f.value; rest ← encode_all fs; ok (buf ++ rest)

abbrev pub AllUtf8 : List Frame → Type 0
AllUtf8 [] = Unit
AllUtf8 (f ∷ fs) = (is_utf8 f.value ≡ true) × AllUtf8 fs

with_rest-some :
    (r : Result WireError (Option Frame)) (reader : Reader) {f : Frame} {rest : Text}
    → with_rest (r, reader) ≡ ok (some (f, rest))
    → (r ≡ ok (some f)) × (bytes_of reader ≡ rest)
with_rest-some (ok none) reader h = cc
with_rest-some (ok (some g)) reader h = ground arith
with_rest-some (err e) reader h = cc

with_rest-none :
    (r : Result WireError (Option Frame)) (reader : Reader)
    → with_rest (r, reader) ≡ ok none
    → r ≡ ok none
with_rest-none (ok none) reader h = refl
with_rest-none (ok (some g)) reader h = cc
with_rest-none (err e) reader h = cc

first_frame-nil : first_frame [] ≡ ok none
unfolding first_frame first_line cut
first_frame-nil = refl

module _ (J : Serde) (describe : WireError → Text) (tail : List Text) (sid : Text) where
  open J use {Value}

  -- Every frame in order, then the end of the stream.
  unfoldable pub handled : List Frame → Bool → State Value → State Value
  handled [] announced s = hang_up J sid (codes "Connection closed") tail announced s
  handled (f ∷ fs) announced s =
      handled fs (announced || (dispatch_frame J sid f s).0)
        (after J describe tail sid announced f s)

  -- When a stream holds the written bytes of some frames, in any division into buffers, the reader
  -- handles exactly these frames, in their order, and then the end of the stream.
  pub read_loop-handled :
      (fs : List Frame) (bytes : Text) (fuel : ℕ) (announced : Bool) (reader : Reader)
      (s : State Value)
      → encode_all fs ≡ ok bytes
      → AllUtf8 fs
      → IsReady reader
      → bytes_of reader ≡ bytes
      → length fs < fuel
      → loop J describe tail sid fuel announced reader s ≡ some (handled fs announced s)
  unfolding encode_all handled
  read_loop-handled fs bytes zero announced reader s e u ready holds h = absurd (omega arith)
  read_loop-handled [] bytes (suc fuel) announced reader s e u ready holds h =
      loop-none J describe tail sid fuel announced reader s (
        with_rest-none _ (read_frame reader).1 (
          read_frame-first_frame reader ready
          ∙ ap first_frame (holds ∙ ground arith)
          ∙ first_frame-nil))
  read_loop-handled (f ∷ fs) bytes (suc fuel) announced reader s e u ready holds h =
      let (buf, written, e1) = ok_of_bind (encode f.tag f.value) _ e in
      let (rest, written_rest, e2) = ok_of_bind (encode_all fs) _ e1 in
      let both : bytes_of reader ≡ buf ++ rest = holds ∙ ground arith in
      let (is_f, left) =
        with_rest-some _ (read_frame reader).1
          (read_frame-encode f.tag f.value buf rest reader written u.0 ready both) in
      loop_frame J describe tail sid fuel announced reader s f is_f
      ∙ read_loop-handled fs rest fuel (announced || (dispatch_frame J sid f s).0)
          (read_frame reader).1 (after J describe tail sid announced f s) written_rest u.1
          (read_frame-IsReady reader ready) left (omega arith)
