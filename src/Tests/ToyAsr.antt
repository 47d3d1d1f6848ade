-- ===== src/Tests/ToyAsr.antt =====
-- A file format of speech recognition for the tests, which shows that the laws of `AsrSerde` can be met: the
-- texts of the profiles, one behind the other.
use alayaface.Prelude.{
  ℕ, zero, suc, ◌≡◌, refl, false, Option, none, some, and_then, List, [], ◌∷◌, Text, is_empty,
}
use alayaface.Chars.{trim, trim_end, is_whitespace}
use alayaface.Asr.Profiles.{AsrProfile, AsrConfig, AsrSerde}
use alayaface.Tests.ToySettings.{put, take_text, take_text-put, brace_first}

abbrev put_profiles : List AsrProfile → Text
put_profiles [] = []
put_profiles (p ∷ ps) = put p.id (
    put p.name
      (put p.protocol (put p.url (put p.api_key (put p.model (put p.language (put_profiles ps)))))))

abbrev push_profile : AsrProfile → Option (List AsrProfile) → Option (List AsrProfile)
push_profile p none = none
push_profile p (some ps) = some (p ∷ ps)

abbrev take_profiles : ℕ → Text → Option (List AsrProfile)
take_profiles zero t = some []
take_profiles (suc n) t = and_then (take_text t) (λ (id, r1). and_then (take_text r1) (λ (name, r2).
    and_then (take_text r2) (λ (protocol, r3). and_then (take_text r3) (λ (url, r4).
      and_then (take_text r4) (λ (api_key, r5). and_then (take_text r5) (λ (model, r6).
        and_then (take_text r6) (λ (language, r7).
          push_profile
            (record {
              id = id;
              name = name;
              protocol = protocol;
              url = url;
              api_key = api_key;
              model = model;
              language = language;
            })
            (take_profiles n r7))))))))

abbrev count : List AsrProfile → ℕ
count [] = 0
count (p ∷ ps) = suc (count ps)

take_profiles-put_profiles :
    (ps : List AsrProfile) → take_profiles (count ps) (put_profiles ps) ≡ some ps
take_profiles-put_profiles [] = refl
take_profiles-put_profiles (p ∷ ps) =
    let r7 = put_profiles ps in
    let r6 = put p.language r7 in
    let r5 = put p.model r6 in
    let r4 = put p.api_key r5 in
    let r3 = put p.url r4 in
    let r2 = put p.protocol r3 in
    let r1 = put p.name r2 in
    rw
      (
        take_text-put p.id r1,
        take_text-put p.name r2,
        take_text-put p.protocol r3,
        take_text-put p.url r4,
        take_text-put p.api_key r5,
        take_text-put p.model r6,
        take_text-put p.language r7,
        take_profiles-put_profiles ps,
      )
      refl

abbrev with_active : Text → Option (List AsrProfile) → Option AsrConfig
with_active active none = none
with_active active (some ps) = some (record { active = active; profiles = ps })

abbrev pub toy_config : Text → Option AsrConfig
toy_config [] = none
toy_config (c ∷ []) = none
toy_config (c ∷ n ∷ body) =
    and_then (take_text body) (λ (active, rest). with_active active (take_profiles n rest))

abbrev pub toy_write : AsrConfig → Text
toy_write cfg = b'{' ∷ count cfg.profiles ∷ put cfg.active (put_profiles cfg.profiles)

pub toy_config-toy_write : (cfg : AsrConfig) → toy_config (toy_write cfg) ≡ some cfg
toy_config-toy_write cfg =
    rw
      (
        take_text-put cfg.active (put_profiles cfg.profiles),
        take_profiles-put_profiles cfg.profiles,
      )
      refl

pub toy_write-trim : (cfg : AsrConfig) → is_empty (trim (toy_write cfg)) ≡ false
unfolding trim is_whitespace
toy_write-trim cfg =
    brace_first
      (trim_end is_whitespace (count cfg.profiles ∷ put cfg.active (put_profiles cfg.profiles)))

abbrev pub toy_asr : AsrSerde
toy_asr = record {
  config_of = toy_config;
  to_string_pretty = toy_write;
  config_of-to_string_pretty = toy_config-toy_write;
  to_string_pretty-trim = toy_write-trim;
}
