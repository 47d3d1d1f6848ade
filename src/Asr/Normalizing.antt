-- ===== src/Asr/Normalizing.antt =====
-- What `normalize_asr_config` of src-tauri/src/commands/asr.rs settles, and what is stored of it.
use alayaface.Prelude.{
  ℕ, suc, ◌≡◌, refl, sym, ap, ap₂, ◌∙◌, Bool, true, false, not, ◌&&◌, ◌||◌, Option, some, List, [],
  ◌∷◌, Text, codes, text_eq, text_eq_refl, eq_of_text_eq, is_empty, holds, Result, ok, Bool-cases,
  Option-cases, Result-cases, inl, inr, arith, refused, same_answer,
}
use alayaface.Chars.{trim, is_whitespace}
use alayaface.Chars.Trimming.{trim-trim}
use alayaface.Asr.Profiles.{
  protocol_chat_completions, protocol_step_audio, AsrProfile, AsrConfig, or_default, default_name,
  known_protocol, default_asr_model, normalize_profile, normalize_all, ids_of, first_id,
  choose_active, normalize_asr_config, find_profile, active_profile, AsrSerde, read_asr_config,
  sync_asr_config, invalid_config, ensure_failed, write_failed,
}

or_default-again :
    (t d d' : Text) → is_empty (trim d) ≡ false → or_default (or_default t d) d' ≡ or_default t d
unfolding or_default
or_default-again t d d' h = elim (Bool-cases (is_empty (trim t))) [
  | inl blank ↦ rw (or_default, blank, h) refl
  | inr blank ↦ rw (or_default, blank) (rw blank refl)
]

known_protocol-again : (p : Text) → known_protocol (known_protocol p) ≡ known_protocol p
unfolding known_protocol text_eq
known_protocol-again p =
    elim (Bool-cases
      (not (text_eq p protocol_chat_completions) && not (text_eq p protocol_step_audio))) [
        | inl other ↦ rw (known_protocol, other) refl
        | inr known ↦ rw (known_protocol, known) (rw (known_protocol, known) refl)
      ]

auto_filled : is_empty (trim (codes "auto")) ≡ false
unfolding trim is_whitespace
auto_filled = refl

model_filled : (p : Text) → is_empty (trim (default_asr_model p)) ≡ false
unfolding trim default_asr_model is_whitespace
model_filled p = elim (Bool-cases (text_eq p protocol_step_audio)) [
  | inl e ↦ rw e refl
  | inr e ↦ rw e refl
]

name_filled : (url : Text) → is_empty (trim (default_name url)) ≡ false
unfolding default_name is_whitespace
name_filled url = elim (Bool-cases (is_empty (trim url))) [
  | inl e ↦ rw (default_name, e) refl
  | inr e ↦ rw (default_name, e) (ap is_empty (trim-trim url) ∙ e)
]

-- A profile that was normalized stays.
normalize_profile-again :
    (uuid uuid' : Text) (p : AsrProfile)
    → is_empty (trim uuid) ≡ false
    → normalize_profile uuid' (normalize_profile uuid p) ≡ normalize_profile uuid p
unfolding normalize_profile
normalize_profile-again uuid uuid' p fresh =
    let protocol = known_protocol (p.protocol) in
    rw
      (
        or_default-again (p.id) uuid uuid' fresh,
        or_default-again (p.name) (default_name (p.url)) (default_name (p.url))
            (name_filled (p.url)),
        known_protocol-again (p.protocol),
        or_default-again (p.model) (default_asr_model protocol) (default_asr_model protocol)
            (model_filled protocol),
        or_default-again (p.language) (codes "auto") (codes "auto") auto_filled,
      )
      refl

normalize_all-again :
    (uuids uuids' : ℕ → Text) (m n : ℕ) (ps : List AsrProfile)
    → ((k : ℕ) → is_empty (trim (uuids k)) ≡ false)
    → normalize_all uuids' m (normalize_all uuids n ps) ≡ normalize_all uuids n ps
unfolding normalize_all
normalize_all-again uuids uuids' m n [] fresh = refl
normalize_all-again uuids uuids' m n (p ∷ ps) fresh =
    ap₂ ◌∷◌ (normalize_profile-again (uuids n) (uuids' m) p (fresh n))
      (normalize_all-again uuids uuids' (suc m) (suc n) ps fresh)

-- Whether the active id is replaced by the first.
abbrev is_stale : Text → List AsrProfile → Bool
is_stale active ps = is_empty (trim active) || not (holds (trim active) (ids_of ps))

choose_active-again :
    (active : Text) (ps : List AsrProfile)
    → choose_active (choose_active active ps) ps ≡ choose_active active ps
unfolding choose_active
choose_active-again active ps = elim (Bool-cases (is_stale active ps)) [
  | inr kept ↦ rw (choose_active, kept) (rw (choose_active, kept) refl)
  | inl stale ↦
      rw (choose_active, stale)
        (elim (Bool-cases (is_stale (first_id ps) ps)) [
          | inl e ↦ rw (choose_active, e) refl
          | inr e ↦ rw (choose_active, e) refl
        ])
]

normalize_asr_config-again :
    (uuids uuids' : ℕ → Text) (cfg : AsrConfig)
    → ((k : ℕ) → is_empty (trim (uuids k)) ≡ false)
    → normalize_asr_config uuids' (normalize_asr_config uuids cfg) ≡ normalize_asr_config uuids cfg
unfolding normalize_asr_config
normalize_asr_config-again uuids uuids' cfg fresh =
    rw
      (
        normalize_all-again uuids uuids' 0 0 (cfg.profiles) fresh,
        choose_active-again (cfg.active) (normalize_all uuids 0 (cfg.profiles)),
      )
      refl

find_profile-holds :
    (active : Text) (ps : List AsrProfile)
    → holds active (ids_of ps) ≡ true
    → (p : AsrProfile) × (find_profile active ps ≡ some p) × (p.id ≡ active)
unfolding find_profile holds
find_profile-holds active [] h = cc
find_profile-holds active (p ∷ ps) h = elim (Bool-cases (text_eq (p.id) active)) [
  | inl e ↦ (p, rw (find_profile, e) refl, eq_of_text_eq (p.id) active e)
  | inr e ↦
      let other : text_eq active (p.id) ≡ false = elim (Bool-cases (text_eq active (p.id))) [
        | inr ne ↦ ne
        | inl same ↦
            let clash : text_eq (p.id) active ≡ true =
              ap (λ t. text_eq (p.id) t) (eq_of_text_eq active (p.id) same) ∙ text_eq_refl (p.id) in
            let no_case : true ≡ false = sym clash ∙ e in cc
      ] in
      let stands : holds active (ids_of ps) ≡ true =
        sym (ap (λ b. b || holds active (ids_of ps)) other) ∙ h in
      let (q, found, same) = find_profile-holds active ps stands in
      (q, rw (find_profile, e) found, same)
]

not_stale : (a b : Bool) → (a || not b) ≡ false → b ≡ true
not_stale a b h = ground arith

first_stands : (p : AsrProfile) (ps : List AsrProfile) → holds (p.id) (ids_of (p ∷ ps)) ≡ true
unfolding holds
first_stands p ps = rw (text_eq_refl (p.id)) refl

chosen_stands :
    (active : Text) (p : AsrProfile) (ps : List AsrProfile)
    → trim (choose_active active (p ∷ ps)) ≡ choose_active active (p ∷ ps)
    → holds (choose_active active (p ∷ ps)) (ids_of (p ∷ ps)) ≡ true
unfolding choose_active
chosen_stands active p ps plain = elim (Bool-cases (is_stale active (p ∷ ps))) [
  | inl stale ↦
      let first : choose_active active (p ∷ ps) ≡ p.id = rw (choose_active, stale) refl in
      ap (λ t. holds t (ids_of (p ∷ ps))) first ∙ first_stands p ps
  | inr kept ↦
      let same : choose_active active (p ∷ ps) ≡ active = rw (choose_active, kept) refl in
      ap (λ t. holds t (ids_of (p ∷ ps))) (sym plain ∙ ap trim same)
      ∙ not_stale (is_empty (trim active)) (holds (trim active) (ids_of (p ∷ ps))) kept
]

-- A configuration with profiles, of which the active id, once it is normalized, has no white space at its
-- ends. Then the profile that a recording goes to is the one with this id.
pub active_profile-normalize_asr_config :
    (uuids : ℕ → Text) (active : Text) (p : AsrProfile) (ps : List AsrProfile)
    → trim (normalize_asr_config uuids (record { active = active; profiles = p ∷ ps })).active
      ≡ (normalize_asr_config uuids (record { active = active; profiles = p ∷ ps })).active
    → (q : AsrProfile) × (active_profile
          (normalize_asr_config uuids (record { active = active; profiles = p ∷ ps }))
        ≡ some q)
      × (q.id ≡ (normalize_asr_config uuids (record { active = active; profiles = p ∷ ps })).active)
unfolding active_profile normalize_asr_config normalize_all
active_profile-normalize_asr_config uuids active p ps plain =
    let first = normalize_profile (uuids 0) p in
    let rest = normalize_all uuids 1 ps in
    let (q, found, same) =
      find_profile-holds (choose_active active (first ∷ rest)) (first ∷ rest)
        (chosen_stands active first rest plain) in
    (q, rw (active_profile, found) refl, same)

read-stored :
    (serde : AsrSerde) (uuids uuids' : ℕ → Text) (raw : AsrConfig)
    → ((k : ℕ) → is_empty (trim (uuids k)) ≡ false)
    → read_asr_config serde uuids' (some (serde.to_string_pretty (normalize_asr_config uuids raw)))
      ≡ ok (normalize_asr_config uuids raw)
unfolding read_asr_config
read-stored serde uuids uuids' raw fresh =
    let cfg = normalize_asr_config uuids raw in
    rw (read_asr_config, serde.to_string_pretty-trim cfg, serde.config_of-to_string_pretty cfg)
      (ap ok (normalize_asr_config-again uuids uuids' raw fresh))

-- A configuration is stored, with new ids that are not blank. Then the answer is what is read from the file
-- afterwards, whatever new ids are at hand then.
pub sync_asr_config-read_asr_config :
    (serde : AsrSerde) (uuids uuids' : ℕ → Text) (ensure write : Result Text (Unit {0}))
    (config : Text) (file after : Option Text) (cfg : AsrConfig)
    → ((k : ℕ) → is_empty (trim (uuids k)) ≡ false)
    → sync_asr_config serde uuids ensure write config file ≡ (after, ok cfg)
    → read_asr_config serde uuids' after ≡ ok cfg
unfolding sync_asr_config
sync_asr_config-read_asr_config serde uuids uuids' ensure write config file after cfg fresh h =
    elim (Option-cases (serde.config_of config)) [
      | inl e ↦ refused file invalid_config (rw (sync_asr_config, e) refl) h
      | inr (raw, e) ↦ elim (Result-cases ensure) [
        | inr (why, bad) ↦ refused file (ensure_failed why) (rw (sync_asr_config, e, bad) refl) h
        | inl (tt, ready) ↦ elim (Result-cases write) [
          | inr (why, bad) ↦
              refused file (write_failed why) (rw (sync_asr_config, e, ready, bad) refl) h
          | inl (tt, done) ↦
              let made = normalize_asr_config uuids raw in
              let (file_is, cfg_is) =
                same_answer after (some (serde.to_string_pretty made)) cfg made
                  (sym h ∙ rw (sync_asr_config, e, ready, done) refl) in
              ap (read_asr_config serde uuids') file_is
              ∙ read-stored serde uuids uuids' raw fresh
              ∙ ap ok (sym cfg_is)
        ]
      ]
    ]
