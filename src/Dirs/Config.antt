-- ===== src/Dirs/Config.antt =====
-- The directory of a preset in src-tauri/src/dirs.rs.
use alayaface.Prelude.{
  ◌≡◌, ap, sym, ◌∙◌, subst, Bool, true, false, [], ◌∷◌, ◌++◌, Text, is_empty, ok, arith, Bool-cases,
  inl, inr, ◌↔◌,
}
use alayaface.Chars.{trim}
use alayaface.Dirs.Names.{valid_preset_name}
use alayaface.Dirs.Safety.{valid_preset_name-safe}
use alayaface.Dirs.Paths.{FilePath}
use alayaface.Dirs.Joining.{join-safe}
use alayaface.Dirs.Presets.{preset_dir, resolve_config_dir}

preset_dir-parts :
    (root : FilePath) (preset : Text)
    → root.is_absolute ≡ true
    → valid_preset_name (trim preset) ≡ true
    → preset_dir root (trim preset)
      ≡ record { is_absolute = true; parts = root.parts ++ trim preset ∷ [] }
unfolding preset_dir
preset_dir-parts root preset abs valid =
    join-safe root (trim preset) abs (valid_preset_name-safe (trim preset) valid).0

valid-not_empty : (name : Text) → valid_preset_name name ≡ true → is_empty name ≡ false
unfolding valid_preset_name
valid-not_empty name h = ground arith

resolved_dir :
    (exists : FilePath → Bool) (root : FilePath) (preset : Text)
    → valid_preset_name (trim preset) ≡ true
    → exists (preset_dir root (trim preset)) ≡ true
    → resolve_config_dir exists root preset ≡ ok (preset_dir root (trim preset))
unfolding resolve_config_dir
resolved_dir exists root preset valid there =
    let ne = valid-not_empty (trim preset) valid in ground arith

-- A preset has a directory exactly if its trimmed name is valid and that directory exists, and it is the
-- directory of that name in the (absolute) presets directory.
pub resolve_config_dir-ok :
    (exists : FilePath → Bool) (root dir : FilePath) (preset : Text)
    → root.is_absolute ≡ true
    → (resolve_config_dir exists root preset ≡ ok dir) ↔ (
        (valid_preset_name (trim preset) ≡ true)
        × (dir ≡ record { is_absolute = true; parts = root.parts ++ trim preset ∷ [] })
        × (exists dir ≡ true))
unfolding resolve_config_dir
resolve_config_dir-ok exists root dir preset abs = (
  λ h. elim (Bool-cases (valid_preset_name (trim preset))) [
    | inl v ↦
        let at = preset_dir-parts root preset abs v in
        let there : exists (preset_dir root (trim preset)) ≡ true = ground arith in
        let same : preset_dir root (trim preset) ≡ dir = ground arith in
        (v, sym same ∙ at, subst (λ d. exists d ≡ true) same there)
    | inr v ↦ ground arith
  ],
  λ (valid, at, there).
      let same : preset_dir root (trim preset) ≡ dir =
        preset_dir-parts root preset abs valid ∙ sym at in
      let stands : exists (preset_dir root (trim preset)) ≡ true = rw same there in
      resolved_dir exists root preset valid stands ∙ ap ok same,
)
