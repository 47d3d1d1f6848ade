-- ===== src/Settings/Merging.antt =====
-- What src-tauri/src/commands/settings.rs writes into a preset's settings, and reads back.
use alayaface.Prelude.{
  ◌≡◌, refl, ap, sym, ◌∙◌, subst, Option, none, some, and_then, ◌++◌, Text, codes, Result, ok, err,
  same_ok, ok_of_bind, Option-cases, Result-cases, refused, inl, inr,
}
use alayaface.Json.{Serde}
use alayaface.Settings.{
  ℤ, GlobalSettings, SettingsSerde, read_settings_from, get_str, merge_tools, merge_level,
  merge_prompt, merge, normalize_tool_confirm, normalize_reasoning_level, level_error,
  sync_global_settings,
}

-- A list of tools after a payload: normalized if the payload gives one, and else the old one.
abbrev pub TakesTools : Option Text → Text → Text → Type 0
TakesTools none old new = new ≡ old
TakesTools (some raw) old new = normalize_tool_confirm raw ≡ ok new

abbrev pub TakesPrompt : Option Text → Text → Text → Type 0
TakesPrompt none old new = new ≡ old
TakesPrompt (some given) old new = new ≡ given

module _ (serde : Serde) (files : SettingsSerde serde.Value) where
  written-read :
      (s : GlobalSettings) → read_settings_from serde files (some (files.to_string_pretty s)) ≡ ok s
  unfolding read_settings_from
  written-read s =
      rw (read_settings_from, files.to_string_pretty-trim s, files.settings_of-to_string_pretty s)
        refl

  merge_tools-some :
      (value : serde.Value) (key current raw : Text)
      → get_str serde files value key ≡ some raw
      → merge_tools serde files value key current ≡ normalize_tool_confirm raw
  unfolding merge_tools
  merge_tools-some value key current raw e = rw (merge_tools, e) refl

  merge_level-some :
      (value v : serde.Value) (current other : Option ℤ)
      → serde.get value (codes "reasoning_level") ≡ some v
      → merge_level serde files value other ≡ merge_level serde files value current
  unfolding merge_level
  merge_level-some value v current other e = rw (merge_level, e) refl

  merge_prompt-none :
      (value : serde.Value) (current : Text)
      → get_str serde files value (codes "system_prompt") ≡ none
      → merge_prompt serde files value current ≡ current
  unfolding merge_prompt
  merge_prompt-none value current e = rw (merge_prompt, e) refl

  merge_prompt-some :
      (value : serde.Value) (current text : Text)
      → get_str serde files value (codes "system_prompt") ≡ some text
      → merge_prompt serde files value current ≡ text
  unfolding merge_prompt
  merge_prompt-some value current text e = rw (merge_prompt, e) refl

  merge_prompt-again :
      (value : serde.Value) (current : Text)
      → merge_prompt serde files value (merge_prompt serde files value current)
        ≡ merge_prompt serde files value current
  merge_prompt-again value current =
      elim (Option-cases (get_str serde files value (codes "system_prompt"))) [
        | inl e ↦ merge_prompt-none value (merge_prompt serde files value current) e
        | inr (text, e) ↦
            merge_prompt-some value (merge_prompt serde files value current) text e
            ∙ sym (merge_prompt-some value current text e)
      ]

  -- The level of a payload, as its number, and else the old one.
  abbrev pub TakesLevel : Option serde.Value → Option ℤ → Option ℤ → Type 0
  TakesLevel none old new = new ≡ old
  TakesLevel (some v) old new =
      (raw : ℤ) × (level : ℤ) × (files.as_i64 v ≡ some raw)
      × (normalize_reasoning_level raw ≡ ok level)
      × (new ≡ some level)

  -- the text that a payload has under a key
  abbrev pub given_text : serde.Value → Text → Option Text
  given_text value key = and_then (serde.get value key) serde.as_str

  -- Settings after a payload, field by field.
  abbrev pub IsMerged : serde.Value → GlobalSettings → GlobalSettings → Type 0
  IsMerged value old new =
      TakesTools (given_text value (codes "tool_confirm")) old.tool_confirm new.tool_confirm
      × TakesTools (given_text value (codes "builtin_tools")) old.builtin_tools new.builtin_tools
      × TakesPrompt (given_text value (codes "system_prompt")) old.system_prompt new.system_prompt
      × TakesLevel (serde.get value (codes "reasoning_level")) old.reasoning_level
          new.reasoning_level

  get_str-given_text :
      (value : serde.Value) (key : Text) → get_str serde files value key ≡ given_text value key
  unfolding get_str
  get_str-given_text value key = elim (Option-cases (serde.get value key)) [
    | inl e ↦ rw (get_str, e) refl
    | inr (v, e) ↦ rw (get_str, e) refl
  ]

  merge_tools-TakesTools :
      (value : serde.Value) (key old new : Text)
      → merge_tools serde files value key old ≡ ok new
      → TakesTools (given_text value key) old new
  unfolding merge_tools
  merge_tools-TakesTools value key old new h = elim (Option-cases (get_str serde files value key)) [
    | inl e ↦
        subst (λ o. TakesTools o old new) (sym e ∙ get_str-given_text value key)
          (sym (same_ok old new (sym (rw (merge_tools, e) refl) ∙ h)))
    | inr (raw, e) ↦
        subst (λ o. TakesTools o old new) (sym e ∙ get_str-given_text value key)
          (sym (merge_tools-some value key old raw e) ∙ h)
  ]

  merge_prompt-TakesPrompt :
      (value : serde.Value) (old : Text)
      → TakesPrompt
          (given_text value (codes "system_prompt"))
          old
          (merge_prompt serde files value old)
  merge_prompt-TakesPrompt value old =
      let new = merge_prompt serde files value old in
      let at = get_str-given_text value (codes "system_prompt") in
      elim (Option-cases (get_str serde files value (codes "system_prompt"))) [
        | inl e ↦ subst (λ o. TakesPrompt o old new) (sym e ∙ at) (merge_prompt-none value old e)
        | inr (given, e) ↦
            subst (λ o. TakesPrompt o old new) (sym e ∙ at) (merge_prompt-some value old given e)
      ]

  merge_level-TakesLevel :
      (value : serde.Value) (old new : Option ℤ)
      → merge_level serde files value old ≡ ok new
      → TakesLevel (serde.get value (codes "reasoning_level")) old new
  unfolding merge_level
  merge_level-TakesLevel value old new h =
      elim (Option-cases (serde.get value (codes "reasoning_level"))) [
        | inl e ↦
            subst (λ o. TakesLevel o old new) (sym e)
              (sym (same_ok old new (sym (rw (merge_level, e) refl) ∙ h)))
        | inr (v, e) ↦ elim (Option-cases (files.as_i64 v)) [
          | inl other ↦
              let clash : err level_error ≡ ok new = sym (rw (merge_level, e, other) refl) ∙ h in cc
          | inr (raw, number) ↦
              let (level, normal, last) =
                ok_of_bind (normalize_reasoning_level raw) (λ l. ok (some l))
                  (sym (rw (merge_level, e, number) refl) ∙ h) in
              subst (λ o. TakesLevel o old new) (sym e)
                (raw, level, number, normal, sym (same_ok (some level) new last))
        ]
      ]

  merge-IsMerged :
      (value : serde.Value) (s s' : GlobalSettings)
      → merge serde files value s ≡ ok s'
      → IsMerged value s s'
  unfolding merge
  merge-IsMerged value s s' h =
      let (confirm, c, hc) = ok_of_bind _ _ h in
      let (builtin, b, hb) = ok_of_bind _ _ hc in
      let (level, l, last) = ok_of_bind _ _ hb in
      let same : record {
        tool_confirm = confirm;
        builtin_tools = builtin;
        system_prompt = merge_prompt serde files value s.system_prompt;
        reasoning_level = level;
      }
          ≡ s' =
        cc last in
      subst (λ m. IsMerged value s m) same
        (
          merge_tools-TakesTools value (codes "tool_confirm") s.tool_confirm confirm c,
          merge_tools-TakesTools value (codes "builtin_tools") s.builtin_tools builtin b,
          merge_prompt-TakesPrompt value s.system_prompt,
          merge_level-TakesLevel value s.reasoning_level level l,
        )

  -- A payload decides a field, or leaves it: doing it again changes nothing.
  merge_tools-again :
      (value : serde.Value) (key current next : Text)
      → merge_tools serde files value key current ≡ ok next
      → merge_tools serde files value key next ≡ ok next
  unfolding merge_tools
  merge_tools-again value key current next h = elim (Option-cases (get_str serde files value key)) [
    | inl e ↦ rw (merge_tools, e) refl
    | inr (raw, e) ↦
        merge_tools-some value key next raw e ∙ sym (merge_tools-some value key current raw e) ∙ h
  ]

  merge_level-again :
      (value : serde.Value) (current next : Option ℤ)
      → merge_level serde files value current ≡ ok next
      → merge_level serde files value next ≡ ok next
  unfolding merge_level
  merge_level-again value current next h =
      elim (Option-cases (serde.get value (codes "reasoning_level"))) [
        | inl e ↦ rw (merge_level, e) refl
        | inr (v, e) ↦ merge_level-some value v current next e ∙ h
      ]

  merge-again :
      (value : serde.Value) (s s' : GlobalSettings)
      → merge serde files value s ≡ ok s'
      → merge serde files value s' ≡ ok s'
  unfolding merge
  merge-again value s s' h =
      let (confirm, c, hc) = ok_of_bind _ _ h in
      let (builtin, b, hb) = ok_of_bind _ _ hc in
      let (level, l, last) = ok_of_bind _ _ hb in
      let same : record {
        tool_confirm = confirm;
        builtin_tools = builtin;
        system_prompt = merge_prompt serde files value s.system_prompt;
        reasoning_level = level;
      }
          ≡ s' =
        cc last in
      subst (λ m. merge serde files value m ≡ ok m) same
        (rw
          (
            merge_tools-again value (codes "tool_confirm") s.tool_confirm confirm c,
            merge_tools-again value (codes "builtin_tools") s.builtin_tools builtin b,
            merge_level-again value s.reasoning_level level l,
            merge_prompt-again value s.system_prompt,
          )
          refl)

  -- A request that succeeds leaves settings that are read as what was read before, with the fields that the
  -- payload gives: the two lists of tools, normalized, the system prompt as it is, and the reasoning level,
  -- checked. A list or a prompt that is not there, or is no text, and a level that is not there, stay as
  -- they were. Repeating the request changes nothing.
  pub sync_global_settings-again :
      (write : Result Text (Unit {0})) (config : Text) (file after : Option Text) (done : Unit {0})
      → sync_global_settings serde files write config file ≡ (after, ok done)
      → ((value : serde.Value) × (old : GlobalSettings) × (new : GlobalSettings) × (serde.from_str
              config
            ≡ some value)
          × (read_settings_from serde files file ≡ ok old)
          × IsMerged value old new
          × (read_settings_from serde files after ≡ ok new))
        × (sync_global_settings serde files write config after ≡ (after, ok done))
  unfolding sync_global_settings
  sync_global_settings-again write config file after done h =
      elim (Option-cases (serde.from_str config)) [
        | inl e ↦ refused file (codes "Invalid settings JSON") (rw (sync_global_settings, e) refl) h
        | inr (value, e) ↦ elim (Result-cases (read_settings_from serde files file)) [
          | inr (why, r) ↦ refused file why (rw (sync_global_settings, e, r) refl) h
          | inl (old, r) ↦ elim (Result-cases (merge serde files value old)) [
            | inr (why, m) ↦ refused file why (rw (sync_global_settings, e, r, m) refl) h
            | inl (new, m) ↦ elim (Result-cases write) [
              | inr (why, w) ↦
                  refused file (codes "Failed to write settings.conf: " ++ why)
                    (rw (sync_global_settings, e, r, m, w) refl) h
              | inl (unit, w) ↦
                  let stored : sync_global_settings serde files write config file
                      ≡ (some (files.to_string_pretty new), ok unit) =
                    rw (sync_global_settings, e, r, m, w) refl in
                  let at : some (files.to_string_pretty new) ≡ after =
                    ap (λ p. p.0) (sym stored ∙ h) in
                  (
                    (
                      value,
                      old,
                      new,
                      e,
                      r,
                      merge-IsMerged value old new m,
                      subst (λ f. read_settings_from serde files f ≡ ok new) at (written-read new),
                    ),
                    subst (λ f. sync_global_settings serde files write config f ≡ (after, ok done))
                        at
                        (rw
                          (
                            sync_global_settings,
                            e,
                            written-read new,
                            merge-again value old new m,
                            w,
                          )
                          (sym stored ∙ h)),
                  )
            ]
          ]
        ]
      ]
