-- ===== src/Versions/Handshake.antt =====
-- What `check_message_version` of src-tauri/src/alayacore.rs makes of the first frame of a process.
use alayaface.Prelude.{
  ◌≡◌, refl, ap, ◌∙◌, Bool, true, not, Option, none, some, and_then, ◌++◌, Text, codes, text_eq,
  if◌then◌else◌, Result, ok, err, false, ◌==◌,
}
use alayaface.Json.{Serde, SystemMsgEnvelope}
use alayaface.Settings.{ℤ, pos, negsuc}
use alayaface.Wire.{WireError, Frame, Reader, tag_system_msg, encode, read_frame}
use alayaface.Wire.Utf8.{is_utf8}
use alayaface.Wire.Reading.{bytes_of, IsReady, with_rest}
use alayaface.Wire.RoundTrip.{read_frame-encode}
use alayaface.Versions.{VersionError, is_supported, check_version_frame, read_version_frame}

abbrev drop_rest : Result WireError (Option (Frame × Text)) → Result WireError (Option Frame)
drop_rest (ok none) = ok none
drop_rest (ok (some (frame, rest))) = ok (some frame)
drop_rest (err e) = err e

frame_read :
    (r : Result WireError (Option Frame) × Reader) (frame : Frame) (rest : Text)
    → with_rest r ≡ ok (some (frame, rest))
    → r.0 ≡ ok (some frame)
frame_read (ok none, reader) frame rest h = cc
frame_read (err e, reader) frame rest h = cc
frame_read (ok (some a), reader) frame rest h = ap drop_rest h

if_not : {A : Type 0} (b : Bool) (x y : A) → (if not b then x else y) ≡ (if b then y else x)
if_not true x y = refl
if_not false x y = refl

checked_17 :
    (observed : ℤ)
    → ◌≡◌ {A = Result VersionError (Unit {0})}
        (if not (is_supported observed) then err (VersionError.incompatible observed) else ok tt)
        (elim observed [
          | pos n ↦ if n == 17 then ok tt else err (VersionError.incompatible (pos n))
          | negsuc n ↦ err (VersionError.incompatible (negsuc n))
        ])
unfolding is_supported
checked_17 (pos n) = if_not (n == 17) (err (VersionError.incompatible (pos n))) (ok tt)
checked_17 (negsuc n) = refl

module _ (serde : Serde) (as_i64 : serde.Value → Option ℤ) where
  -- A process that writes the frame of its version first, in whatever pieces it arrives, passes the check
  -- exactly if that version is 17. Otherwise, be it older or newer, the error names the version.
  pub read_version_frame-encode :
      (value buf rest : Text) (reader : Reader) (env : SystemMsgEnvelope serde.Value) (observed : ℤ)
      → encode tag_system_msg value ≡ ok buf
      → is_utf8 value ≡ true
      → IsReady reader
      → bytes_of reader ≡ buf ++ rest
      → serde.envelope value ≡ some env
      → text_eq env.msg_type (codes "version") ≡ true
      → and_then (serde.get env.body (codes "message_version")) as_i64 ≡ some observed
      → read_version_frame serde as_i64 reader ≡ (elim observed [
        | pos n ↦ if n == 17 then ok tt else err (VersionError.incompatible (pos n))
        | negsuc n ↦ err (VersionError.incompatible (negsuc n))
      ])
  unfolding read_version_frame check_version_frame text_eq
  read_version_frame-encode value buf rest reader env observed sent utf8 ready holds decoded version
        given =
      let sm : Frame = record { tag = tag_system_msg; value = value } in
      let read : (read_frame reader).0 ≡ ok (some sm) =
        frame_read (read_frame reader) sm rest
          (read_frame-encode tag_system_msg value buf rest reader sent utf8 ready holds) in
      let checked : check_version_frame serde as_i64 value ≡ (
          if not (is_supported observed) then err (VersionError.incompatible observed) else ok tt) =
        rw (check_version_frame, decoded, version, given) refl in
      rw (read_version_frame, read) (checked ∙ checked_17 observed)
