-- ===== src/Dirs/Safety.antt =====
-- What the names are good for: every sanitized component and every valid preset name is one
-- component that cannot lead out of its directory.
use alayaface.Prelude.{
  ℕ, ◌≤◌, ◌≡◌, refl, ap, true, false, [], ◌∷◌, Text, text_eq, all, contains, is_empty, length, ◌==◌,
  if◌then◌else◌, arith, Bool-cases, inl, inr, and_left,
}
use alayaface.Chars.{byte_len}
use alayaface.Dirs.Names.{
  is_name_char, valid_preset_name, sanitize_chars, sanitize_dir_component, safe_path_component,
}

sanitize_chars-all : (s : Text) → all is_name_char (sanitize_chars s) ≡ true
unfolding sanitize_chars
sanitize_chars-all [] = refl
sanitize_chars-all (c ∷ cs) = ground (arith, sanitize_chars-all cs)

sanitize_chars_id : (s : Text) → all is_name_char s ≡ true → sanitize_chars s ≡ s
unfolding sanitize_chars
sanitize_chars_id [] h = refl
sanitize_chars_id (c ∷ cs) h = ground (arith, sanitize_chars_id cs)

name_char_ne : (c d : ℕ) → is_name_char c ≡ true → is_name_char d ≡ false → (c == d) ≡ false
name_char_ne c d hc hd = elim (Bool-cases (c == d)) [
  | inl e ↦ let same : c ≡ d = ground arith in cc (ap is_name_char same)
  | inr e ↦ e
]

not_name_chars :
    (is_name_char b'.' ≡ false)
    × (is_name_char b'/' ≡ false)
    × (is_name_char b'\\' ≡ false)
    × (is_name_char 0 ≡ false)
unfolding is_name_char
not_name_chars = (refl, refl, refl, refl)

not_contains :
    (d : ℕ) (s : Text) → is_name_char d ≡ false → all is_name_char s ≡ true → contains d s ≡ false
not_contains d [] hd h = refl
not_contains d (c ∷ cs) hd h = ground (arith, not_contains d cs, name_char_ne c d)

-- Text of name characters, with one at least, is a component of its own.
pub safe_path_component-all :
    (s : Text) → is_empty s ≡ false → all is_name_char s ≡ true → safe_path_component s ≡ true
unfolding safe_path_component text_eq
safe_path_component-all [] ne h = cc
safe_path_component-all (c ∷ cs) ne h =
    let (dot, slash, backslash, nul) = not_name_chars in
    ground (
      arith,
      name_char_ne c b'.' (and_left _ _ h) dot,
      not_contains b'/' (c ∷ cs) slash h,
      not_contains b'\\' (c ∷ cs) backslash h,
      not_contains 0 (c ∷ cs) nul h,
    )

-- A text of name characters, or the default of an empty one.
or_default :
    (out : Text)
    → all is_name_char out ≡ true
    → (safe_path_component (if is_empty out then b'p' ∷ [] else out) ≡ true)
      × (all is_name_char (if is_empty out then b'p' ∷ [] else out) ≡ true)
or_default [] h = (unfold safe_path_component text_eq in refl, unfold is_name_char in refl)
or_default (c ∷ cs) h = (safe_path_component-all (c ∷ cs) refl h, h)

sanitize_again :
    (s : Text) → is_empty s ≡ false → all is_name_char s ≡ true → sanitize_dir_component s ≡ s
unfolding sanitize_dir_component
sanitize_again s ne h = rw (sanitize_dir_component, sanitize_chars_id s h, ne)

never_empty : (out : Text) → is_empty (if is_empty out then b'p' ∷ [] else out) ≡ false
never_empty [] = refl
never_empty (c ∷ cs) = refl

length-le-byte_len : (s : Text) → length s ≤ byte_len s
unfolding byte_len
length-le-byte_len [] = omega arith
length-le-byte_len (c ∷ cs) = ground (arith, length-le-byte_len cs)

-- Whatever the id, its sanitized form is a single path component that cannot lead out of its
-- directory, holds only name characters, and is sanitized to itself; so creating a session and
-- resuming it agree on the directory.
pub sanitize_dir_component-safe :
    (s : Text)
    → (safe_path_component (sanitize_dir_component s) ≡ true)
      × (all is_name_char (sanitize_dir_component s) ≡ true)
      × (sanitize_dir_component (sanitize_dir_component s) ≡ sanitize_dir_component s)
unfolding sanitize_dir_component
sanitize_dir_component-safe s =
    let (safe, named) = or_default (sanitize_chars s) (sanitize_chars-all s) in
    (safe, named, sanitize_again (sanitize_dir_component s) (never_empty (sanitize_chars s)) named)

-- A valid preset name is safe as a directory name, and has at most 64 characters.
pub valid_preset_name-safe :
    (name : Text)
    → valid_preset_name name ≡ true
    → (safe_path_component name ≡ true) × (length name ≤ 64)
unfolding valid_preset_name
valid_preset_name-safe name h = (
  safe_path_component-all name (ground arith) (ground arith),
  ground (arith, length-le-byte_len name),
)
