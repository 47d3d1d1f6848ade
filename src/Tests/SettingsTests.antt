-- ===== src/Tests/SettingsTests.antt =====
-- Settings of a preset, normalized and merged, with the library of ToyJson.
use alayaface.Prelude.{◌≡◌, refl, Option, none, some, [], Text, text_eq, codes, Result, ok}
use alayaface.Settings.{GlobalSettings, read_settings_from, sync_global_settings}
use alayaface.Settings.Merging.{IsMerged, sync_global_settings-again}
use alayaface.Tests.ToyJson.{Toy, toy_json, settings_text}
use alayaface.Tests.ToySettings.{toy_settings}

abbrev fine : Result Text (Unit {0})
fine = ok tt

abbrev stored : GlobalSettings
stored = record {
  tool_confirm = codes "read,write";
  builtin_tools = [];
  system_prompt = [];
  reasoning_level = none;
}

-- the file after a request with one field
abbrev stored_file : Option Text
stored_file = some (toy_settings.to_string_pretty stored)

sync_global_settings-again_example :
    ((value : Toy) × (old : GlobalSettings) × (new : GlobalSettings) × (toy_json.from_str
          settings_text
        ≡ some value)
      × (read_settings_from toy_json toy_settings none ≡ ok old)
      × IsMerged toy_json toy_settings value old new
      × (read_settings_from toy_json toy_settings stored_file ≡ ok new))
    × (sync_global_settings toy_json toy_settings fine settings_text stored_file
        ≡ (stored_file, fine))
unfolding sync_global_settings text_eq
sync_global_settings-again_example =
    sync_global_settings-again toy_json toy_settings fine settings_text none stored_file tt refl
