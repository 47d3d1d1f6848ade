-- ===== src/Tests/ToySettings.antt =====
-- A file format of settings for the tests, which shows that the laws of `SettingsSerde` can be met. A text
-- is written as its characters, each after a 1, and a 0.
use alayaface.Prelude.{
  ℕ, zero, suc, ◌≡◌, refl, false, Option, none, some, and_then, [], ◌∷◌, Text, is_empty,
}
use alayaface.Chars.{trim, trim_end, push_front, is_whitespace}
use alayaface.Settings.{ℤ, pos, negsuc, GlobalSettings, SettingsSerde}
use alayaface.Tests.ToyJson.{Toy}

abbrev pub put : Text → Text → Text
put [] rest = 0 ∷ rest
put (c ∷ cs) rest = 1 ∷ c ∷ put cs rest

abbrev pub push : ℕ → Option (Text × Text) → Option (Text × Text)
push c none = none
push c (some (t, rest)) = some (c ∷ t, rest)

abbrev pub take_text : Text → Option (Text × Text)
take_text [] = none
take_text (zero ∷ rest) = some ([], rest)
take_text (suc n ∷ []) = none
take_text (suc n ∷ c ∷ rest) = push c (take_text rest)

pub take_text-put : (t rest : Text) → take_text (put t rest) ≡ some (t, rest)
take_text-put [] rest = refl
take_text-put (c ∷ cs) rest = rw (take_text-put cs rest) refl

abbrev pub put_level : Option ℤ → Text
put_level none = []
put_level (some (pos n)) = 0 ∷ n ∷ []
put_level (some (negsuc n)) = 1 ∷ n ∷ []

abbrev pub take_level : Text → Option ℤ
take_level [] = none
take_level (k ∷ []) = none
take_level (zero ∷ n ∷ rest) = some (pos n)
take_level (suc k ∷ n ∷ rest) = some (negsuc n)

pub take_level-put_level : (l : Option ℤ) → take_level (put_level l) ≡ l
take_level-put_level none = refl
take_level-put_level (some (pos n)) = refl
take_level-put_level (some (negsuc n)) = refl

abbrev pub toy_write : GlobalSettings → Text
toy_write s =
    b'{'
    ∷ put s.tool_confirm (put s.builtin_tools (put s.system_prompt (put_level s.reasoning_level)))

abbrev pub toy_read : Text → Option GlobalSettings
toy_read [] = none
toy_read (c ∷ body) = and_then (take_text body) (λ (confirm, r).
    and_then (take_text r) (λ (builtin, r'). and_then (take_text r') (λ (prompt, level).
      some record {
        tool_confirm = confirm;
        builtin_tools = builtin;
        system_prompt = prompt;
        reasoning_level = take_level level;
      })))

pub toy_read-toy_write : (s : GlobalSettings) → toy_read (toy_write s) ≡ some s
toy_read-toy_write s =
    rw
      (
        take_text-put s.tool_confirm
            (put s.builtin_tools (put s.system_prompt (put_level s.reasoning_level))),
        take_text-put s.builtin_tools (put s.system_prompt (put_level s.reasoning_level)),
        take_text-put s.system_prompt (put_level s.reasoning_level),
        take_level-put_level s.reasoning_level,
      )
      refl

pub brace_first : (rest : Text) → is_empty (push_front is_whitespace b'{' rest) ≡ false
unfolding is_whitespace
brace_first [] = refl
brace_first (c ∷ cs) = refl

pub toy_write-trim : (s : GlobalSettings) → is_empty (trim (toy_write s)) ≡ false
unfolding trim is_whitespace
toy_write-trim s = brace_first (
    trim_end is_whitespace (
      put s.tool_confirm (put s.builtin_tools (put s.system_prompt (put_level s.reasoning_level)))))

abbrev pub toy_level : Toy → Option ℤ
toy_level v = none

abbrev pub toy_settings : SettingsSerde Toy
toy_settings = record {
  as_i64 = toy_level;
  settings_of = toy_read;
  to_string_pretty = toy_write;
  settings_of-to_string_pretty = toy_read-toy_write;
  to_string_pretty-trim = toy_write-trim;
}
