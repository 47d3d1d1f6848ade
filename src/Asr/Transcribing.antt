-- ===== src/Asr/Transcribing.antt =====
-- A recording on its way to an endpoint: `asr_transcribe` with its three protocols, and the transcripts of
-- their answers, of src-tauri/src/commands/asr.rs.
use alayaface.Prelude.{
  ℕ, Bool, true, false, not, ◌&&◌, ◌||◌, Option, none, some, and_then, List, [], ◌∷◌, ◌++◌, Text,
  codes, text_eq, take, is_empty, ◌==◌, if◌then◌else◌, Result, ok, err, ◌>>=◌,
}
use alayaface.Chars.{trim, decimal}
use alayaface.Json.{Serde}
use alayaface.Versions.{lines, strip_key}
use alayaface.Asr.Wav.{Format, wav_params}
use alayaface.Asr.Profiles.{
  protocol_chat_completions, protocol_step_audio, AsrProfile, AsrConfig, default_asr_model,
  active_profile,
}

pub record AsrTranscribeResult : Type 0 where
  pub ok : Bool
  pub text : Text
  pub error : Text

abbrev pub failed : Text → AsrTranscribeResult
failed why = record { ok = false; text = []; error = why }

abbrev pub transcribed : Text → AsrTranscribeResult
transcribed t = record { ok = true; text = t; error = [] }

unfoldable pub asr_no_url : AsrTranscribeResult
asr_no_url = failed (codes "ASR not configured: set the endpoint URL in the ASR config")

pub record Endpoint : Type 0 where
  pub url : Text
  pub model : Text
  pub language : Text

unfoldable pub trimmed_or : Text → Text → Text
unfolding trim
trimmed_or t default = if is_empty (trim t) then default else trim t

unfoldable pub asr_endpoint : AsrProfile → Endpoint
unfolding trim trimmed_or default_asr_model
asr_endpoint p = record {
  url = trim (p.url);
  model = trimmed_or (p.model) (default_asr_model (p.protocol));
  language = trimmed_or (p.language) (codes "auto");
}

-- What is posted: a form, or the fields of the JSON document that its protocol asks for.
pub data Body : Type 0 where
  multipart : List ℕ → Text → Option Text → Body
  chat : Text → Text → Text → Body
  step_audio : Text → Text → Text → Format → Body

pub record Request : Type 0 where
  pub url : Text
  pub auth : Option (Text × Text)
  pub body : Body

pub record Response : Type 0 where
  pub is_success : Bool
  pub status : Text
  pub body : Text

-- the header of a key, if there is one
unfoldable pub key_header : Text → Text → Text → Option (Text × Text)
unfolding trim
key_header name prefix api_key =
    if is_empty (trim api_key) then none else some (name, prefix ++ trim api_key)

unfoldable pub language_field : Text → Option Text
unfolding text_eq
language_field lang =
    if not (is_empty lang) && not (text_eq lang (codes "auto")) then some lang else none

-- What a line of a stream carries behind `data:`.
unfoldable pub data_payload : Text → Option Text
unfolding trim strip_key
data_payload line = elim (strip_key (codes "data:") (trim line)) [
  | none ↦ none
  | some payload ↦ some (trim payload)
]

abbrev pub text_or : Option Text → Text → Text
text_or none default = default
text_or (some t) default = t

module _ (serde : Serde) (pointer : serde.Value → Text → Option serde.Value) where
  -- `v.get(key).and_then(|t| t.as_str())`, and the same with a pointer
  unfoldable pub str_at : serde.Value → Text → Option Text
  str_at v key = and_then (serde.get v key) (serde.as_str)

  unfoldable pub str_under : serde.Value → Text → Option Text
  str_under v path = and_then (pointer v path) (serde.as_str)

  -- What an event of the stream does: a piece of text, the end with an answer, or nothing.
  pub data Event : Type 0 where
    delta : Text → Event
    done : Option Text → Event
    error : Text → Event
    other : Event

  unfoldable pub step_event : serde.Value → Event
  unfolding str_at text_eq
  step_event v = elim (str_at v (codes "type")) [
    | none ↦ other
    | some kind ↦
        if text_eq kind (codes "transcript.text.delta")
        then elim (str_at v (codes "delta")) [ none ↦ other | some d ↦ delta d ]
        else if text_eq kind (codes "transcript.text.done")
        then done (str_at v (codes "text"))
        else if text_eq kind (codes "error")
        then error (text_or (str_at v (codes "message")) (codes "unknown error"))
        else other
  ]

  unfoldable pub payload_event : Text → Event
  unfolding step_event
  payload_event payload =
      if is_empty payload
      then other
      else elim (serde.from_str payload) [ none ↦ other | some v ↦ step_event v ]

  unfoldable pub line_event : Text → Event
  unfolding data_payload payload_event
  line_event line = elim (data_payload line) [ none ↦ other | some payload ↦ payload_event payload ]

  unfoldable pub done_text : Text → Option Text → Text
  unfolding trim
  done_text text none = trim text
  done_text text (some t) = if is_empty (trim t) then trim text else trim t

  -- the loop on the lines, with the text so far
  unfoldable pub step_lines : Text → List Text → Result Text Text
  unfolding line_event done_text trim
  step_lines text [] = Result.ok (trim text)
  step_lines text (line ∷ ls) =
      let onward = step_lines text ls in
      elim (line_event line) [
        | delta d ↦ step_lines (text ++ d) ls
        | done t ↦ Result.ok (done_text text t)
        | error why ↦ err why
        | other ↦ onward
      ]

  unfoldable pub extract_step_audio_text : Text → Result Text Text
  unfolding lines step_lines
  extract_step_audio_text body = step_lines [] (lines body)

  -- The text that a document of a chat adds.
  unfoldable pub chat_piece : Text → Text
  unfolding str_under
  chat_piece payload = elim (serde.from_str payload) [
    | none ↦ []
    | some v ↦ elim (str_under v (codes "/choices/0/delta/content")) [
      | some d ↦ d
      | none ↦ text_or (str_under v (codes "/choices/0/message/content")) []
    ]
  ]

  unfoldable pub chat_lines : List Text → Text
  unfolding data_payload text_eq chat_piece
  chat_lines [] = []
  chat_lines (line ∷ ls) =
      let rest = chat_lines ls in
      elim (data_payload line) [
        | none ↦ rest
        | some payload ↦ if text_eq payload (codes "[DONE]") then [] else chat_piece payload ++ rest
      ]

  unfoldable pub plain_chat : Text → Text
  unfolding str_under
  plain_chat body = elim (serde.from_str body) [
    | none ↦ []
    | some v ↦ text_or (str_under v (codes "/choices/0/message/content")) []
  ]

  unfoldable pub extract_chat_text : Text → Text
  unfolding lines chat_lines plain_chat trim
  extract_chat_text body =
      let text = chat_lines (lines body) in trim (if is_empty text then plain_chat body else text)

  unfoldable pub multipart_text : Text → Result Text AsrTranscribeResult
  unfolding str_at trim
  multipart_text body = elim (serde.from_str body) [
    | none ↦ err (codes "Bad ASR response")
    | some v ↦ Result.ok (transcribed (trim (text_or (str_at v (codes "text")) [])))
  ]

  unfoldable pub step_text : Text → Result Text AsrTranscribeResult
  unfolding extract_step_audio_text
  step_text body = elim (extract_step_audio_text body) [
    | ok transcript ↦ Result.ok (transcribed transcript)
    | err why ↦ Result.ok (failed (codes "StepAudio error: " ++ why))
  ]

  unfoldable pub chat_text : Text → Result Text AsrTranscribeResult
  unfolding extract_chat_text
  chat_text body = Result.ok (transcribed (extract_chat_text body))

  unfoldable pub read_response :
      (Text → Result Text AsrTranscribeResult) → Response → Result Text AsrTranscribeResult
  read_response read response =
      if not response.is_success
      then Result.ok (
          failed
            (codes "ASR API returned " ++ response.status ++ codes ": " ++ take 300 response.body))
      else read response.body

  -- What was sent, and the answer.
  abbrev pub Sent : Type 0
  Sent = List Request × Result Text AsrTranscribeResult

  -- The endpoint and the two directions of base64; the text of a request that failed is in its error.
  module _ (http : Request → Result Text Response) (encode : List ℕ → Text)
      (decode : Text → Option (List ℕ)) where
    -- one request, and what is made of a response that is a success
    unfoldable pub post : Request → (Text → Result Text AsrTranscribeResult) → Sent
    unfolding read_response
    post request read = (request ∷ [], (do response ← http request; read_response read response))

    unfoldable pub transcribe_multipart : AsrProfile → List ℕ → Sent
    unfolding asr_endpoint asr_no_url language_field key_header multipart_text post
    transcribe_multipart p wav =
        let endpoint = asr_endpoint p in
        let request : Request = record {
          url = endpoint.url;
          auth = key_header (codes "Authorization") (codes "Bearer ") (p.api_key);
          body = multipart wav (endpoint.model) (language_field (endpoint.language));
        } in
        if is_empty (endpoint.url) then ([], Result.ok asr_no_url) else post request multipart_text

    unfoldable pub transcribe_chat : AsrProfile → Text → Sent
    unfolding asr_endpoint asr_no_url key_header chat_text post
    transcribe_chat p audio_base64 =
        let endpoint = asr_endpoint p in
        let request : Request = record {
          url = endpoint.url;
          auth = key_header (codes "api-key") [] (p.api_key);
          body = chat audio_base64 (endpoint.model) (endpoint.language);
        } in
        if is_empty (endpoint.url) then ([], Result.ok asr_no_url) else post request chat_text

    abbrev pub not_mono : Format → AsrTranscribeResult
    not_mono f = failed (
        codes "StepAudio needs 16-bit mono PCM, got "
        ++ decimal (f.bits)
        ++ codes "-bit x "
        ++ decimal (f.channels)
        ++ codes " ch")

    unfoldable pub transcribe_step_audio : AsrProfile → List ℕ → Sent
    unfolding asr_endpoint asr_no_url wav_params key_header step_text post decimal
    transcribe_step_audio p wav =
        let endpoint = asr_endpoint p in
        if is_empty (endpoint.url) then ([], Result.ok asr_no_url) else elim (wav_params wav) [
          | none ↦ ([], err (codes "Invalid WAV audio: expected 16-bit PCM mono (RIFF/WAVE)"))
          | some found ↦
              if not (found.format.bits == 16) || not (found.format.channels == 1)
              then ([], Result.ok (not_mono (found.format)))
              else post
                  (record {
                    url = endpoint.url;
                    auth = key_header (codes "Authorization") (codes "Bearer ") (p.api_key);
                    body =
                        step_audio (encode (found.pcm)) (endpoint.model) (endpoint.language)
                          (found.format);
                  })
                  step_text
        ]

    unfoldable pub transcribe_with : AsrProfile → Text → List ℕ → Sent
    unfolding asr_no_url text_eq trim transcribe_chat transcribe_step_audio transcribe_multipart
    transcribe_with p audio_base64 wav =
        if is_empty (trim (p.url))
        then ([], Result.ok asr_no_url)
        else if text_eq (p.protocol) protocol_chat_completions
        then transcribe_chat p audio_base64
        else if text_eq (p.protocol) protocol_step_audio
        then transcribe_step_audio p wav
        else transcribe_multipart p wav

    unfoldable pub transcribe_active : AsrConfig → Text → List ℕ → Sent
    unfolding active_profile transcribe_with
    transcribe_active cfg audio_base64 wav = elim (active_profile cfg) [
      | none ↦
          ([], Result.ok (failed (codes "ASR not configured: add an endpoint in the ASR config")))
      | some p ↦ transcribe_with p audio_base64 wav
    ]

    -- `read` is what `read_asr_config` answers, with its errors as texts.
    unfoldable pub asr_transcribe : Result Text AsrConfig → Text → Sent
    unfolding transcribe_active
    asr_transcribe read audio_base64 = elim (decode audio_base64) [
      | none ↦ ([], err (codes "Invalid audio payload"))
      | some wav ↦
          if is_empty wav
          then ([], Result.ok (failed (codes "Empty audio")))
          else elim read [ err e ↦ ([], err e) | ok cfg ↦ transcribe_active cfg audio_base64 wav ]
    ]
