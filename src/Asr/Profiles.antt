-- ===== src/Asr/Profiles.antt =====
-- The endpoints for speech recognition: `normalize_asr_config`, `active_profile`, `asr_endpoint`,
-- `read_asr_config` and `sync_asr_config` of src-tauri/src/commands/asr.rs.
use alayaface.Prelude.{
  ℕ, suc, ◌≡◌, false, not, ◌&&◌, ◌||◌, Option, none, some, List, [], ◌∷◌, Text, codes, text_eq,
  is_empty, holds, if◌then◌else◌, Result, ok, err,
}
use alayaface.Chars.{trim}

abbrev pub protocol_transcriptions : Text
protocol_transcriptions = codes "transcriptions"

abbrev pub protocol_chat_completions : Text
protocol_chat_completions = codes "chat_completions"

abbrev pub protocol_step_audio : Text
protocol_step_audio = codes "step_audio"

pub record AsrProfile : Type 0 where
  pub id : Text
  pub name : Text
  pub protocol : Text
  pub url : Text
  pub api_key : Text
  pub model : Text
  pub language : Text

pub record AsrConfig : Type 0 where
  pub active : Text
  pub profiles : List AsrProfile

-- A text of white space counts as missing.
unfoldable pub or_default : Text → Text → Text
unfolding trim
or_default t default = if is_empty (trim t) then default else t

unfoldable pub default_name : Text → Text
unfolding trim
default_name url = if is_empty (trim url) then codes "ASR" else trim url

unfoldable pub known_protocol : Text → Text
unfolding text_eq
known_protocol protocol =
    if not (text_eq protocol protocol_chat_completions)
      && not (text_eq protocol protocol_step_audio)
    then protocol_transcriptions
    else protocol

unfoldable pub default_asr_model : Text → Text
unfolding text_eq
default_asr_model protocol =
    if text_eq protocol protocol_step_audio then codes "stepaudio-2.5-asr" else codes "whisper-1"

-- `uuid` is the new id.
unfoldable pub normalize_profile : Text → AsrProfile → AsrProfile
unfolding or_default default_name known_protocol default_asr_model
normalize_profile uuid p = record {
  id = or_default (p.id) uuid;
  name = or_default (p.name) (default_name (p.url));
  protocol = known_protocol (p.protocol);
  url = p.url;
  api_key = p.api_key;
  model = or_default (p.model) (default_asr_model (known_protocol (p.protocol)));
  language = or_default (p.language) (codes "auto");
}

-- the profiles with the ids from the `n`-th on
unfoldable pub normalize_all : (ℕ → Text) → ℕ → List AsrProfile → List AsrProfile
unfolding normalize_profile
normalize_all uuids n [] = []
normalize_all uuids n (p ∷ ps) = normalize_profile (uuids n) p ∷ normalize_all uuids (suc n) ps

abbrev pub ids_of : List AsrProfile → List Text
ids_of [] = []
ids_of (p ∷ ps) = p.id ∷ ids_of ps

abbrev pub first_id : List AsrProfile → Text
first_id [] = []
first_id (p ∷ ps) = p.id

unfoldable pub choose_active : Text → List AsrProfile → Text
unfolding trim holds
choose_active active profiles =
    if is_empty (trim active) || not (holds (trim active) (ids_of profiles))
    then first_id profiles
    else active

unfoldable pub normalize_asr_config : (ℕ → Text) → AsrConfig → AsrConfig
unfolding normalize_all choose_active
normalize_asr_config uuids cfg =
    let profiles = normalize_all uuids 0 (cfg.profiles) in
    record { active = choose_active (cfg.active) profiles; profiles = profiles }

unfoldable pub find_profile : Text → List AsrProfile → Option AsrProfile
unfolding text_eq
find_profile active [] = none
find_profile active (p ∷ ps) =
    let rest = find_profile active ps in if text_eq (p.id) active then some p else rest

abbrev pub first_profile : List AsrProfile → Option AsrProfile
first_profile [] = none
first_profile (p ∷ ps) = some p

unfoldable pub active_profile : AsrConfig → Option AsrProfile
unfolding find_profile
active_profile cfg = elim (find_profile (cfg.active) (cfg.profiles)) [
  | none ↦ first_profile (cfg.profiles)
  | some p ↦ some p
]

abbrev pub default_config : AsrConfig
default_config = record { active = []; profiles = [] }

-- What serde does for the config file.
pub record AsrSerde : Type 0 where
  pub config_of : Text → Option AsrConfig
  pub to_string_pretty : AsrConfig → Text
  pub config_of-to_string_pretty : (cfg : AsrConfig) → config_of (to_string_pretty cfg) ≡ some cfg
  -- JSON objects start with a brace.
  pub to_string_pretty-trim : (cfg : AsrConfig) → is_empty (trim (to_string_pretty cfg)) ≡ false

pub data AsrError : Type 0 where
  parse_failed : AsrError
  invalid_config : AsrError
  ensure_failed : Text → AsrError
  write_failed : Text → AsrError

module _ (serde : AsrSerde) where
  -- The file is `none` if it cannot be read.
  unfoldable pub read_asr_config : (ℕ → Text) → Option Text → Result AsrError AsrConfig
  unfolding trim normalize_asr_config
  read_asr_config uuids none = ok default_config
  read_asr_config uuids (some text) =
      if is_empty (trim text) then ok default_config else elim (serde.config_of text) [
        | none ↦ err parse_failed
        | some cfg ↦ ok (normalize_asr_config uuids cfg)
      ]

  -- The file after it, and the answer. `ensure` and the atomic write answer with what they are given here.
  unfoldable pub sync_asr_config :
      (ℕ → Text)
      → Result Text (Unit {0})
      → Result Text (Unit {0})
      → Text
      → Option Text
      → Option Text × Result AsrError AsrConfig
  unfolding normalize_asr_config
  sync_asr_config uuids ensure write config file = elim (serde.config_of config) [
    | none ↦ (file, err invalid_config)
    | some raw ↦
        let cfg = normalize_asr_config uuids raw in
        elim ensure [
          | err e ↦ (file, err (ensure_failed e))
          | ok done ↦ elim write [
            | err e ↦ (file, err (write_failed e))
            | ok done' ↦ (some (serde.to_string_pretty cfg), ok cfg)
          ]
        ]
  ]
