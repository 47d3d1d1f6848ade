-- ===== src/Asr/Streams.antt =====
-- The streamed answers of the endpoints: `extract_chat_text` and `extract_step_audio_text` of
-- src-tauri/src/commands/asr.rs.
use alayaface.Prelude.{
  ◌≡◌, refl, sym, ap, ap₂, ◌∙◌, false, Option, some, List, [], ◌∷◌, ◌++◌, Text, codes, text_eq,
  contains, is_empty, append_assoc, append-nil,
}
use alayaface.Chars.{trim, trim_start, trim_end, is_whitespace}
use alayaface.Chars.Trimming.{IsTight, trim-space, trim-front}
use alayaface.Json.{Serde}
use alayaface.Versions.{lines, strip_key}
use alayaface.Versions.Headers.{lines-append}
use alayaface.Asr.Transcribing.{
  data_payload, delta, payload_event, chat_piece, chat_lines, extract_chat_text,
}

-- A document on a line of its own, and an empty line behind it.
abbrev pub data_line : Text → Text
data_line payload = codes "data:" ++ b' ' ∷ payload

-- A document without white space at its ends, on one line, which is not the mark of the end.
abbrev pub IsPayload : Text → Type 0
IsPayload payload =
    IsTight payload × (contains b'\n' payload ≡ false) × (text_eq payload (codes "[DONE]") ≡ false)

abbrev pub AllPayloads : List (Text × Text) → Type 0
AllPayloads [] = Unit
AllPayloads ((payload, text) ∷ pieces) = IsPayload payload × AllPayloads pieces

abbrev pub put_stream : List (Text × Text) → Text → Text
put_stream [] rest = rest
put_stream ((payload, text) ∷ pieces) rest =
    data_line payload ++ b'\n' ∷ b'\n' ∷ put_stream pieces rest

-- the texts of the pieces, in a row
abbrev pub texts : List (Text × Text) → Text
texts [] = []
texts ((payload, text) ∷ pieces) = text ++ texts pieces

data_payload-data_line :
    (payload : Text) → IsTight payload → data_payload (data_line payload) ≡ some payload
unfolding data_payload is_whitespace
data_payload-data_line payload tight =
    rw
      (
        data_payload,
        trim-front b'd' (codes "ata:") payload refl refl tight,
        trim-space payload tight,
      )
      refl

lines-data_line :
    (payload rest : Text)
    → contains b'\n' payload ≡ false
    → lines (data_line payload ++ b'\n' ∷ rest) ≡ data_line payload ∷ lines rest
lines-data_line payload rest one_line = lines-append (data_line payload) rest one_line

empty_line : (rest : Text) → lines (b'\n' ∷ rest) ≡ [] ∷ lines rest
unfolding lines
empty_line rest = refl

lines-piece :
    (payload rest : Text)
    → contains b'\n' payload ≡ false
    → lines (data_line payload ++ b'\n' ∷ b'\n' ∷ rest) ≡ data_line payload ∷ [] ∷ lines rest
lines-piece payload rest one_line =
    lines-data_line payload (b'\n' ∷ rest) one_line ∙ ap (◌∷◌ (data_line payload)) (empty_line rest)

module _ (serde : Serde) (pointer : serde.Value → Text → Option serde.Value) where
  -- The pieces of a chat have the texts that they are listed with.
  abbrev pub AllPieces : List (Text × Text) → Type 0
  AllPieces [] = Unit
  AllPieces ((payload, text) ∷ pieces) =
      (chat_piece serde pointer payload ≡ text) × AllPieces pieces

  chat_lines-piece :
      (payload : Text) (ls : List Text)
      → IsPayload payload
      → chat_lines serde pointer (data_line payload ∷ [] ∷ ls)
        ≡ chat_piece serde pointer payload ++ chat_lines serde pointer ls
  unfolding chat_lines data_payload strip_key trim
  chat_lines-piece payload ls (tight, one_line, goes_on) =
      rw (chat_lines, data_payload-data_line payload tight, goes_on) refl

  chat_lines-put_stream :
      (pieces : List (Text × Text)) (rest : Text)
      → AllPayloads pieces
      → AllPieces pieces
      → chat_lines serde pointer (lines (put_stream pieces rest))
        ≡ texts pieces ++ chat_lines serde pointer (lines rest)
  chat_lines-put_stream [] rest payloads known = refl
  chat_lines-put_stream ((payload, text) ∷ pieces) rest (first, payloads) (same, known) =
      ap (chat_lines serde pointer) (lines-piece payload (put_stream pieces rest) (first.1))
      ∙ chat_lines-piece payload (lines (put_stream pieces rest)) first
      ∙ ap₂ ◌++◌ same (chat_lines-put_stream pieces rest payloads known)
      ∙ sym (append_assoc text (texts pieces) (chat_lines serde pointer (lines rest)))

  chat_lines-done :
      (line : Text) (ls : List Text)
      → data_payload line ≡ some (codes "[DONE]")
      → chat_lines serde pointer (line ∷ ls) ≡ []
  unfolding chat_lines text_eq
  chat_lines-done line ls e = rw (chat_lines, e) refl

  done_line :
      (rest : Text)
      → chat_lines serde pointer (lines (data_line (codes "[DONE]") ++ b'\n' ∷ rest)) ≡ []
  unfolding trim_start trim_end is_whitespace
  done_line rest =
      ap (chat_lines serde pointer) (lines-data_line (codes "[DONE]") rest refl)
      ∙ chat_lines-done (data_line (codes "[DONE]")) (lines rest)
          (data_payload-data_line (codes "[DONE]") (refl, refl, refl))

  -- A stream of documents that each add a text, the mark of the end, and anything behind it. If the texts
  -- are not all empty, the transcript is what they are in a row, trimmed.
  pub extract_chat_text-put_stream :
      (pieces : List (Text × Text)) (rest : Text)
      → AllPayloads pieces
      → AllPieces pieces
      → is_empty (texts pieces) ≡ false
      → extract_chat_text serde pointer
          (put_stream pieces (data_line (codes "[DONE]") ++ b'\n' ∷ rest))
        ≡ trim (texts pieces)
  unfolding extract_chat_text
  extract_chat_text-put_stream pieces rest payloads known some_text =
      let body = put_stream pieces (data_line (codes "[DONE]") ++ b'\n' ∷ rest) in
      let read : chat_lines serde pointer (lines body) ≡ texts pieces =
        chat_lines-put_stream pieces (data_line (codes "[DONE]") ++ b'\n' ∷ rest) payloads known
        ∙ ap (◌++◌ (texts pieces)) (done_line rest)
        ∙ append-nil (texts pieces) in
      rw (extract_chat_text, read, some_text) refl

  -- The pieces of a StepAudio stream are deltas with the texts that they are listed with.
  abbrev pub AllDeltas : List (Text × Text) → Type 0
  AllDeltas [] = Unit
  AllDeltas ((payload, text) ∷ pieces) =
      (payload_event serde pointer payload ≡ delta text) × AllDeltas pieces
