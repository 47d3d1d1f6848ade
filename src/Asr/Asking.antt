-- ===== src/Asr/Asking.antt =====
-- Where a recording goes: the requests of `asr_transcribe` of src-tauri/src/commands/asr.rs.
use alayaface.Prelude.{
  [], ◌∷◌, ◌⊎◌, ℕ, ◌≡◌, refl, ap, Bool, true, false, not, ◌||◌, Option, none, some, List, Text,
  text_eq, codes, is_empty, if◌then◌else◌, Result, ok, ◌>>=◌, Bool-cases, Option-cases, inl, inr,
  ◌==◌,
}
use alayaface.Chars.{trim}
use alayaface.Json.{Serde}
use alayaface.Asr.Wav.{wav_params}
use alayaface.Asr.Profiles.{
  protocol_chat_completions, protocol_step_audio, AsrProfile, AsrConfig, active_profile,
}
use alayaface.Asr.Transcribing.{
  AsrTranscribeResult, Sent, asr_endpoint, asr_no_url, not_mono, Body, multipart, chat, step_audio,
  Request, Response, key_header, language_field, read_response, post, multipart_text, chat_text,
  step_text, transcribe_multipart, transcribe_chat, transcribe_step_audio, transcribe_with,
  transcribe_active, asr_transcribe,
}

-- A request to the endpoint of a profile, which has a URL; without a key it has no header.
abbrev pub IsAsked : AsrProfile → Request → Type 0
IsAsked p r =
    (r.url ≡ trim (p.url))
    × (is_empty (r.url) ≡ false)
    × (is_empty (trim (p.api_key)) ≡ true → r.auth ≡ none)

no_key :
    (name prefix api_key : Text)
    → is_empty (trim api_key) ≡ true
    → key_header name prefix api_key ≡ none
unfolding key_header
no_key name prefix api_key blank = rw (key_header, blank) refl

-- A choice of which only the branches that can be taken are alike.
same_choice {ℓ} :
    {A : Type ℓ} {x y z x' y' z' : A} (blank one two : Bool) (w : A)
    → (blank ≡ false → x ≡ x')
    → (blank ≡ false → y ≡ y')
    → (blank ≡ false → z ≡ z')
    → (if blank then w else if one then x else if two then y else z)
      ≡ (if blank then w else if one then x' else if two then y' else z')
same_choice true one two w fx fy fz = refl
same_choice false true two w fx fy fz = fx refl
same_choice false false true w fx fy fz = fy refl
same_choice false false false w fx fy fz = fz refl

module _ (serde : Serde) (pointer : serde.Value → Text → Option serde.Value)
    (http http' : Request → Result Text Response) (encode : List ℕ → Text)
    (decode : Text → Option (List ℕ)) (p : AsrProfile)
    (agree : (r : Request) → IsAsked p r → http r ≡ http' r) where
  post-agree :
      (body : Body) (name prefix : Text) (read : Text → Result Text AsrTranscribeResult)
      → is_empty (trim (p.url)) ≡ false
      → post serde pointer http encode decode
          (record { url = trim (p.url); auth = key_header name prefix (p.api_key); body = body })
          read
        ≡ post serde pointer http' encode decode
            (record { url = trim (p.url); auth = key_header name prefix (p.api_key); body = body })
            read
  unfolding post
  post-agree body name prefix read some_url =
      let r : Request = record {
        url = trim (p.url);
        auth = key_header name prefix (p.api_key);
        body = body;
      } in
      ap (λ answer. (r ∷ [], ◌>>=◌ answer (read_response serde pointer read)))
        (agree r (refl, some_url, no_key name prefix (p.api_key)))

  transcribe_multipart-agree :
      (wav : List ℕ)
      → is_empty (trim (p.url)) ≡ false
      → transcribe_multipart serde pointer http encode decode p wav
        ≡ transcribe_multipart serde pointer http' encode decode p wav
  unfolding transcribe_multipart asr_endpoint
  transcribe_multipart-agree wav some_url =
      ap (λ answer. if is_empty (trim (p.url)) then ([], Result.ok asr_no_url) else answer)
        (post-agree
          (multipart wav (asr_endpoint p).model (language_field (asr_endpoint p).language))
          (codes "Authorization") (codes "Bearer ") (multipart_text serde pointer) some_url)

  transcribe_chat-agree :
      (audio_base64 : Text)
      → is_empty (trim (p.url)) ≡ false
      → transcribe_chat serde pointer http encode decode p audio_base64
        ≡ transcribe_chat serde pointer http' encode decode p audio_base64
  unfolding transcribe_chat asr_endpoint
  transcribe_chat-agree audio_base64 some_url =
      ap (λ answer. if is_empty (trim (p.url)) then ([], Result.ok asr_no_url) else answer)
        (post-agree (chat audio_base64 (asr_endpoint p).model (asr_endpoint p).language)
          (codes "api-key") [] (chat_text serde pointer) some_url)

  transcribe_step_audio-agree :
      (wav : List ℕ)
      → is_empty (trim (p.url)) ≡ false
      → transcribe_step_audio serde pointer http encode decode p wav
        ≡ transcribe_step_audio serde pointer http' encode decode p wav
  unfolding transcribe_step_audio asr_endpoint
  transcribe_step_audio-agree wav some_url = elim (Option-cases (wav_params wav)) [
    | inl e ↦ rw (transcribe_step_audio, e) refl
    | inr (found, e) ↦
        rw (transcribe_step_audio, e)
          (ap
            (λ answer.
              if is_empty (trim (p.url))
              then ([], Result.ok asr_no_url)
              else if not (found.format.bits == 16) || not (found.format.channels == 1)
              then ([], Result.ok (not_mono serde pointer http encode decode (found.format)))
              else answer)
            (post-agree
              (step_audio (encode (found.pcm)) (asr_endpoint p).model (asr_endpoint p).language
                (found.format))
              (codes "Authorization") (codes "Bearer ") (step_text serde pointer) some_url))
  ]

  transcribe_with-agree :
      (audio_base64 : Text) (wav : List ℕ)
      → transcribe_with serde pointer http encode decode p audio_base64 wav
        ≡ transcribe_with serde pointer http' encode decode p audio_base64 wav
  unfolding transcribe_with
  transcribe_with-agree audio_base64 wav =
      same_choice (is_empty (trim (p.url))) (text_eq (p.protocol) protocol_chat_completions)
        (text_eq (p.protocol) protocol_step_audio) (([], Result.ok asr_no_url))
        (transcribe_chat-agree audio_base64) (transcribe_step_audio-agree wav)
        (transcribe_multipart-agree wav)

  transcribe_active-agree :
      (cfg : AsrConfig) (audio_base64 : Text) (wav : List ℕ)
      → active_profile cfg ≡ some p
      → transcribe_active serde pointer http encode decode cfg audio_base64 wav
        ≡ transcribe_active serde pointer http' encode decode cfg audio_base64 wav
  unfolding transcribe_active
  transcribe_active-agree cfg audio_base64 wav chosen =
      rw (transcribe_active, chosen) (transcribe_with-agree audio_base64 wav)

  asr_transcribe-alike :
      (cfg : AsrConfig) (audio_base64 : Text)
      → active_profile cfg ≡ some p
      → asr_transcribe serde pointer http encode decode (ok cfg) audio_base64
        ≡ asr_transcribe serde pointer http' encode decode (ok cfg) audio_base64
  unfolding asr_transcribe
  asr_transcribe-alike cfg audio_base64 chosen = elim (Option-cases (decode audio_base64)) [
    | inl e ↦ rw (asr_transcribe, e) refl
    | inr (wav, e) ↦ elim (Bool-cases (is_empty wav)) [
      | inl silent ↦ rw (asr_transcribe, e, silent) refl
      | inr silent ↦
          rw (asr_transcribe, e, silent) (transcribe_active-agree cfg audio_base64 wav chosen)
    ]
  ]

-- No request, or one to the endpoint of the profile.
abbrev pub IsOneAsked : AsrProfile → List Request → Type 0
IsOneAsked p sent = (sent ≡ []) ⊎ ((r : Request) × (sent ≡ r ∷ []) × IsAsked p r)

-- A choice of which only the branches that can be taken need the property.
chosen_one :
    {A : Type 0} (P : A → Type 0) (blank one two : Bool) (w x y z : A)
    → P w
    → (blank ≡ false → P x)
    → (blank ≡ false → P y)
    → (blank ≡ false → P z)
    → P (if blank then w else if one then x else if two then y else z)
chosen_one P true one two w x y z pw px py pz = pw
chosen_one P false true two w x y z pw px py pz = px refl
chosen_one P false false true w x y z pw px py pz = py refl
chosen_one P false false false w x y z pw px py pz = pz refl

module _ (serde : Serde) (pointer : serde.Value → Text → Option serde.Value)
    (http : Request → Result Text Response) (encode : List ℕ → Text)
    (decode : Text → Option (List ℕ)) (p : AsrProfile) where
  post-IsAsked :
      (body : Body) (name prefix : Text) (read : Text → Result Text AsrTranscribeResult)
      → is_empty (trim (p.url)) ≡ false
      → IsOneAsked p
          (post serde pointer http encode decode
            (record { url = trim (p.url); auth = key_header name prefix (p.api_key); body = body })
            read).0
  unfolding post
  post-IsAsked body name prefix read some_url = inr (
    record { url = trim (p.url); auth = key_header name prefix (p.api_key); body = body },
    refl,
    (refl, some_url, no_key name prefix (p.api_key)),
  )

  transcribe_multipart-IsAsked :
      (wav : List ℕ)
      → is_empty (trim (p.url)) ≡ false
      → IsOneAsked p (transcribe_multipart serde pointer http encode decode p wav).0
  unfolding transcribe_multipart asr_endpoint
  transcribe_multipart-IsAsked wav some_url =
      rw (transcribe_multipart, some_url)
        (post-IsAsked
          (multipart wav (asr_endpoint p).model (language_field (asr_endpoint p).language))
          (codes "Authorization") (codes "Bearer ") (multipart_text serde pointer) some_url)

  transcribe_chat-IsAsked :
      (audio_base64 : Text)
      → is_empty (trim (p.url)) ≡ false
      → IsOneAsked p (transcribe_chat serde pointer http encode decode p audio_base64).0
  unfolding transcribe_chat asr_endpoint
  transcribe_chat-IsAsked audio_base64 some_url =
      rw (transcribe_chat, some_url)
        (post-IsAsked (chat audio_base64 (asr_endpoint p).model (asr_endpoint p).language)
          (codes "api-key") [] (chat_text serde pointer) some_url)

  transcribe_step_audio-IsAsked :
      (wav : List ℕ)
      → is_empty (trim (p.url)) ≡ false
      → IsOneAsked p (transcribe_step_audio serde pointer http encode decode p wav).0
  unfolding transcribe_step_audio asr_endpoint
  transcribe_step_audio-IsAsked wav some_url = elim (Option-cases (wav_params wav)) [
    | inl e ↦ rw (transcribe_step_audio, some_url, e) (inl refl)
    | inr (found, e) ↦
        elim (Bool-cases (not (found.format.bits == 16) || not (found.format.channels == 1))) [
          | inl other ↦ rw (transcribe_step_audio, some_url, e, other) (inl refl)
          | inr mono ↦
              rw (transcribe_step_audio, some_url, e, mono)
                (post-IsAsked
                  (step_audio (encode (found.pcm)) (asr_endpoint p).model (asr_endpoint p).language
                    (found.format))
                  (codes "Authorization") (codes "Bearer ") (step_text serde pointer) some_url)
        ]
  ]

  transcribe_with-IsAsked :
      (audio_base64 : Text) (wav : List ℕ)
      → IsOneAsked p (transcribe_with serde pointer http encode decode p audio_base64 wav).0
  unfolding transcribe_with
  transcribe_with-IsAsked audio_base64 wav =
      chosen_one (λ (sent : Sent serde pointer). IsOneAsked p sent.0) (is_empty (trim (p.url)))
        (text_eq (p.protocol) protocol_chat_completions) (text_eq (p.protocol) protocol_step_audio)
        ([], Result.ok asr_no_url) (transcribe_chat serde pointer http encode decode p audio_base64)
        (transcribe_step_audio serde pointer http encode decode p wav)
        (transcribe_multipart serde pointer http encode decode p wav) (inl refl)
        (transcribe_chat-IsAsked audio_base64) (transcribe_step_audio-IsAsked wav)
        (transcribe_multipart-IsAsked wav)

  asr_transcribe-IsOneAsked :
      (cfg : AsrConfig) (audio_base64 : Text)
      → active_profile cfg ≡ some p
      → IsOneAsked p (asr_transcribe serde pointer http encode decode (ok cfg) audio_base64).0
  unfolding asr_transcribe transcribe_active
  asr_transcribe-IsOneAsked cfg audio_base64 chosen = elim (Option-cases (decode audio_base64)) [
    | inl e ↦ rw (asr_transcribe, e) (inl refl)
    | inr (wav, e) ↦ elim (Bool-cases (is_empty wav)) [
      | inl silent ↦ rw (asr_transcribe, e, silent) (inl refl)
      | inr silent ↦
          rw (asr_transcribe, e, silent, transcribe_active, chosen)
            (transcribe_with-IsAsked audio_base64 wav)
    ]
  ]

  -- The profile that is used decides where a recording goes. Nothing is sent, or one request: to the
  -- profile's URL, trimmed and not blank, without a header if its key is blank. And two networks that
  -- answer alike the requests of this kind make no difference to what is sent and to the answer.
  pub asr_transcribe-agree :
      (http' : Request → Result Text Response) (cfg : AsrConfig) (audio_base64 : Text)
      → ((r : Request) → IsAsked p r → http r ≡ http' r)
      → active_profile cfg ≡ some p
      → ((sent : List Request) × (answer : Result Text AsrTranscribeResult) × (asr_transcribe serde
              pointer http encode decode
              (ok cfg)
              audio_base64
            ≡ (sent, answer))
          × ((sent ≡ []) ⊎ ((r : Request) × (sent ≡ r ∷ []) × IsAsked p r)))
        × (asr_transcribe serde pointer http encode decode (ok cfg) audio_base64
            ≡ asr_transcribe serde pointer http' encode decode (ok cfg) audio_base64)
  asr_transcribe-agree http' cfg audio_base64 agree chosen =
      let run = asr_transcribe serde pointer http encode decode (ok cfg) audio_base64 in
      (
        (run.0, run.1, refl, asr_transcribe-IsOneAsked cfg audio_base64 chosen),
        asr_transcribe-alike serde pointer http http' encode decode p agree cfg audio_base64 chosen,
      )
