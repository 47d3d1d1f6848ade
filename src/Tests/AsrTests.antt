-- ===== src/Tests/AsrTests.antt =====
-- Recordings, profiles and transcripts, with the file format of ToyAsr and the library of ToyJson.
use alayaface.Prelude.{
  ◌⊎◌, true, if◌then◌else◌, err, ℕ, ◌≡◌, refl, Option, none, some, List, [], ◌∷◌, ◌++◌, Text, codes,
  text_eq, take, Result, ok, arith,
}
use alayaface.Chars.{trim, trim_start, trim_end, is_whitespace}
use alayaface.Asr.Wav.{Format, Params, wav_params}
use alayaface.Asr.Container.{Chunk}
use alayaface.Asr.Recording.{put_wav, wav_params-put_wav}
use alayaface.Asr.Profiles.{
  AsrProfile, AsrConfig, normalize_asr_config, active_profile, read_asr_config, sync_asr_config,
}
use alayaface.Asr.Normalizing.{active_profile-normalize_asr_config, sync_asr_config-read_asr_config}
use alayaface.Asr.Transcribing.{
  AsrTranscribeResult, Sent, Request, Response, asr_transcribe, extract_chat_text,
}
use alayaface.Asr.Asking.{IsAsked, asr_transcribe-agree}
use alayaface.Asr.Streams.{data_line, put_stream, texts, extract_chat_text-put_stream}
use alayaface.Tests.ToyJson.{Toy, text, toy_json, label_text, delta_text}
use alayaface.Tests.ToyAsr.{toy_asr, toy_write}

abbrev telephone : Format
telephone = record { rate = 8000; channels = 1; bits = 16 }

abbrev list_chunk : Chunk
list_chunk = record { i0 = b'L'; i1 = b'I'; i2 = b'S'; i3 = b'T'; body = 1 ∷ 2 ∷ 3 ∷ [] }

abbrev samples : List ℕ
samples = 10 ∷ 20 ∷ 30 ∷ 40 ∷ 99 ∷ []

abbrev recording : List ℕ
recording =
    put_wav (list_chunk ∷ []) telephone (0 ∷ 0 ∷ 0 ∷ 0 ∷ 2 ∷ 0 ∷ []) (0 ∷ 0 ∷ []) (list_chunk ∷ [])
      4 samples

wav_params-put_wav_example :
    wav_params recording ≡ some (record { format = telephone; pcm = take 4 samples })
unfolding text_eq
wav_params-put_wav_example =
    wav_params-put_wav (list_chunk ∷ []) telephone 0 0 0 0 2 0 (0 ∷ 0 ∷ []) (list_chunk ∷ []) 4
      samples (omega arith, omega arith, omega arith) (omega arith) refl refl (omega arith)

abbrev heard : Params
heard = record { format = telephone; pcm = 10 ∷ 20 ∷ 30 ∷ 40 ∷ [] }

abbrev endpoint : Text → AsrProfile
endpoint id = record {
  id = id;
  name = [];
  protocol = codes "bogus";
  url = codes "http://x/v1";
  api_key = [];
  model = [];
  language = [];
}

abbrev fresh : ℕ → Text
fresh n = codes "id"

abbrev given : AsrConfig
given = record { active = codes "b"; profiles = endpoint [] ∷ endpoint (codes "b") ∷ [] }

active_profile-normalize_asr_config_example :
    (q : AsrProfile) × (active_profile (normalize_asr_config fresh given) ≡ some q)
    × (q.id ≡ (normalize_asr_config fresh given).active)
unfolding normalize_asr_config text_eq is_whitespace
active_profile-normalize_asr_config_example =
    active_profile-normalize_asr_config fresh (codes "b") (endpoint []) (endpoint (codes "b") ∷ [])
      refl

-- An active id with white space at its ends passes, and another profile is used.
spaced_active :
    (active_profile
      (normalize_asr_config fresh (record { active = codes " b"; profiles = given.profiles })))
    ≡ active_profile
        (normalize_asr_config fresh (record { active = codes "id"; profiles = given.profiles }))
unfolding active_profile normalize_asr_config text_eq is_whitespace
spaced_active = refl

abbrev fine : Result Text (Unit {0})
fine = ok tt

abbrev request : Text
request = toy_write given

sync_asr_config-read_asr_config_example :
    read_asr_config toy_asr fresh (some (toy_write (normalize_asr_config fresh given)))
    ≡ ok (normalize_asr_config fresh given)
unfolding sync_asr_config trim is_whitespace
sync_asr_config-read_asr_config_example =
    sync_asr_config-read_asr_config toy_asr fresh fresh fine fine request none
      (some (toy_write (normalize_asr_config fresh given))) (normalize_asr_config fresh given)
      (λ k. refl) refl

abbrev toy_pointer : Toy → Text → Option Toy
toy_pointer v path = some (text (codes "hi "))

abbrev pieces : List (Text × Text)
pieces = (label_text, codes "hi ") ∷ (label_text, codes "hi ") ∷ []

extract_chat_text-put_stream_example :
    extract_chat_text toy_json toy_pointer
      (put_stream pieces (data_line (codes "[DONE]") ++ b'\n' ∷ codes "more"))
    ≡ trim (texts pieces)
unfolding text_eq trim_start trim_end is_whitespace extract_chat_text
extract_chat_text-put_stream_example =
    extract_chat_text-put_stream toy_json toy_pointer pieces (codes "more")
      (((refl, refl, refl), refl, refl), (((refl, refl, refl), refl, refl), tt)) (refl, (refl, tt))
      refl

abbrev deltas : List (Text × Text)
deltas = (delta_text, codes "one two") ∷ []

-- A network that answers any request, and one that answers only those to one URL.
abbrev everywhere : Request → Result Text Response
everywhere r = ok (record { is_success = true; status = codes "200"; body = label_text })

abbrev one_place : Request → Result Text Response
one_place r =
    if text_eq r.url (codes "http://x/v1") then everywhere r else err (codes "no such host")

networks_agree : (r : Request) → IsAsked (endpoint (codes "b")) r → everywhere r ≡ one_place r
unfolding text_eq trim is_whitespace
networks_agree r asked = rw (asked.0) refl

abbrev toy_decode : Text → Option (List ℕ)
toy_decode t = some (1 ∷ 2 ∷ [])

abbrev settled : AsrConfig
settled = record { active = codes "b"; profiles = endpoint (codes "b") ∷ [] }

abbrev heard_by : (Request → Result Text Response) → Sent toy_json toy_pointer
heard_by http =
    asr_transcribe toy_json toy_pointer http (λ bytes. []) toy_decode (ok settled) (codes "AQI=")

asr_transcribe-agree_example :
    ((sent : List Request) × (answer : Result Text AsrTranscribeResult) × (heard_by everywhere
        ≡ (sent, answer))
      × ((sent ≡ []) ⊎ ((r : Request) × (sent ≡ r ∷ []) × IsAsked (endpoint (codes "b")) r)))
    × (heard_by everywhere ≡ heard_by one_place)
unfolding active_profile text_eq
asr_transcribe-agree_example =
    asr_transcribe-agree toy_json toy_pointer everywhere (λ bytes. []) toy_decode
      (endpoint (codes "b")) one_place settled (codes "AQI=") networks_agree refl
