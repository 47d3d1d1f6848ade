-- ===== src/Presets/Managed.antt =====
-- What every sequence of the commands of src-tauri/src/commands/presets.rs keeps of the presets.
use alayaface.Prelude.{
  ◌≡◌, refl, ap, ◌∙◌, subst, Bool, true, false, not, ◌&&◌, ◌||◌, Option, none, some, List, [], ◌∷◌,
  ◌++◌, Text, text_eq, eq_of_text_eq, all, all-append, is_empty, leb, length, codes, ok, holds,
  filter, IsDistinct, holds-append, holds-filter, IsDistinct-snoc, IsDistinct-filter, arith,
  Bool-cases, Option-cases, Result-cases, inl, inr,
}
use alayaface.Chars.{trim}
use alayaface.Dirs.Names.{valid_preset_name, is_seed_preset}
use alayaface.Presets.{
  Preset, State, Disk, validate_name, names_of, find, replace, place, ensure, preset_list,
  copy_from, delete_named, rename_named, reorder_named,
}
use alayaface.Presets.Names.{
  all-filter, rename_in, all-rename_in, holds-rename_in, IsDistinct-rename_in, find-none,
  names_of-append, names_of-kept, names_of-gone, names_of-renamed,
}

-- The names are valid and stand once each, and every built-in preset is there.
pub record IsManaged (names : List Text) : Type 0 where
  pub distinct : IsDistinct names
  pub valid : all valid_preset_name names ≡ true
  pub seeded : (n : Text) → is_seed_preset n ≡ true → holds n names ≡ true

added-IsManaged :
    (name : Text) (names : List Text)
    → valid_preset_name name ≡ true
    → holds name names ≡ false
    → IsManaged names
    → IsManaged (names ++ name ∷ [])
added-IsManaged name names v fresh m = record {
  distinct = IsDistinct-snoc name names fresh m.distinct;
  valid = all-append valid_preset_name names (name ∷ []) ∙ rw (m.valid, v) refl;
  seeded = λ n s. holds-append n names (name ∷ []) ∙ rw (m.seeded n s) refl;
}

other_seed :
    (name n : Text) → is_seed_preset name ≡ false → is_seed_preset n ≡ true → text_eq name n ≡ false
other_seed name n plain seed = elim (Bool-cases (text_eq name n)) [
  | inl e ↦
      let same : is_seed_preset name ≡ is_seed_preset n =
        ap is_seed_preset (eq_of_text_eq name n e) in
      ground arith
  | inr e ↦ e
]

gone-IsManaged :
    (name : Text) (names : List Text)
    → is_seed_preset name ≡ false
    → IsManaged names
    → IsManaged (filter (λ n. not (text_eq name n)) names)
gone-IsManaged name names plain m = record {
  distinct = IsDistinct-filter (λ n. not (text_eq name n)) names m.distinct;
  valid = all-filter valid_preset_name (λ n. not (text_eq name n)) names m.valid;
  seeded = λ n s.
      holds-filter (λ n. not (text_eq name n)) n names
      ∙ rw (m.seeded n s, other_seed name n plain s) refl;
}

renamed-IsManaged :
    (old new : Text) (names : List Text)
    → is_seed_preset old ≡ false
    → valid_preset_name new ≡ true
    → holds new names ≡ false
    → IsManaged names
    → IsManaged (rename_in old new names)
renamed-IsManaged old new names plain v fresh m = record {
  distinct = IsDistinct-rename_in old new names fresh m.distinct;
  valid = all-rename_in valid_preset_name old new names v m.valid;
  seeded = λ n s.
      holds-rename_in old new n names
      ∙ rw (m.seeded n s, other_seed old n plain s) (or_true (text_eq n new && holds old names));
}
  where
    or_true : (b : Bool) → (b || true) ≡ true
    or_true true = refl
    or_true false = refl

pub validate_name-valid : (name n : Text) → validate_name name ≡ ok n → valid_preset_name n ≡ true
unfolding validate_name
validate_name-valid name n h = elim (Bool-cases (valid_preset_name (trim name))) [
  | inl e ↦
      let same : trim name ≡ n = ground arith in subst (λ t. valid_preset_name t ≡ true) same e
  | inr e ↦ ground arith
]

seed_simple : is_seed_preset (codes "Simple") ≡ true
unfolding is_seed_preset text_eq
seed_simple = refl

empty-holds :
    {Content : Type 0} (n : Text) (ps : List (Preset Content))
    → is_empty ps ≡ true
    → holds n (names_of ps) ≡ false
unfolding names_of holds
empty-holds n [] e = refl
empty-holds n (p ∷ ps) e = cc

module _ {Content : Type 0} (defaults : Text → Content) (from_str : Text → Option (List Text))
    (to_string : List Text → Text) (disk : Disk Content) where
  abbrev pub IsKept : State Content → Type 0
  IsKept s = IsManaged (names_of s.presets)

  placed-IsManaged :
      (name : Text) (made : Option Content) (s : State Content)
      → valid_preset_name name ≡ true
      → find name s.presets ≡ none
      → IsKept s
      → IsManaged (names_of (place name made s.presets))
  unfolding place
  placed-IsManaged name none s v fresh m = m
  placed-IsManaged name (some c) s v fresh m =
      rw (names_of-append s.presets (record { name = name; content = c } ∷ [])) (
        unfold names_of in
        added-IsManaged name (names_of s.presets) v (find-none name s.presets fresh) m)

  replaced-IsManaged :
      (name : Text) (left : Option Content) (s : State Content)
      → is_seed_preset name ≡ false
      → IsKept s
      → IsManaged (names_of (replace name left s.presets))
  replaced-IsManaged name none s plain m =
      rw (names_of-gone name s.presets) (gone-IsManaged name (names_of s.presets) plain m)
  replaced-IsManaged name (some c) s plain m = rw (names_of-kept name c s.presets) m

  pub copy_from-IsKept :
      (source name : Text) (s : State Content)
      → valid_preset_name name ≡ true
      → IsKept s
      → IsKept (copy_from defaults from_str to_string disk source name s).0
  unfolding copy_from
  copy_from-IsKept source name s v m = elim (Bool-cases (text_eq source name)) [
    | inl e ↦ rw (copy_from, e) m
    | inr e ↦ elim (Option-cases (find source s.presets)) [
      | inl f ↦ rw (copy_from, e, f) m
      | inr (content, f) ↦ elim (Option-cases (find name s.presets)) [
        | inl g ↦ rw (copy_from, e, f, g) (placed-IsManaged name (disk.clone content).0 s v g m)
        | inr (taken, g) ↦ rw (copy_from, e, f, g) m
      ]
    ]
  ]

  pub delete_named-IsKept :
      (name : Text) (s : State Content)
      → IsKept s
      → IsKept (delete_named defaults from_str to_string disk name s).0
  unfolding delete_named
  delete_named-IsKept name s m = elim (Bool-cases (is_seed_preset name)) [
    | inl e ↦ rw (delete_named, e) m
    | inr e ↦ elim (Result-cases (preset_list defaults from_str to_string disk s)) [
      | inr (why, l) ↦ rw (delete_named, e, l) m
      | inl (names, l) ↦ elim (Bool-cases (leb (length names) 1)) [
        | inl last ↦ rw (delete_named, e, l, last) m
        | inr more ↦ elim (Option-cases (find name s.presets)) [
          | inl f ↦ rw (delete_named, e, l, more, f) m
          | inr (content, f) ↦
              rw (delete_named, e, l, more, f)
                (replaced-IsManaged name (disk.remove content).0 s e m)
        ]
      ]
    ]
  ]

  pub rename_named-IsKept :
      (old new : Text) (s : State Content)
      → valid_preset_name new ≡ true
      → IsKept s
      → IsKept (rename_named defaults from_str to_string disk old new s).0
  unfolding rename_named
  rename_named-IsKept old new s v m = elim (Bool-cases (is_seed_preset old)) [
    | inl e ↦ rw (rename_named, e) m
    | inr e ↦ elim (Bool-cases (text_eq old new)) [
      | inl same ↦ rw (rename_named, e, same) m
      | inr differ ↦ elim (Option-cases (find old s.presets)) [
        | inl f ↦ rw (rename_named, e, differ, f) m
        | inr (content, f) ↦ elim (Option-cases (find new s.presets)) [
          | inr (taken, g) ↦ rw (rename_named, e, differ, f, g) m
          | inl g ↦ elim (Result-cases disk.rename) [
            | inr (why, r) ↦ rw (rename_named, e, differ, f, g, r) m
            | inl (done, r) ↦
                rw (rename_named, e, differ, f, g, r, names_of-renamed old new s.presets)
                  (renamed-IsManaged old new (names_of s.presets) e v (find-none new s.presets g) m)
          ]
        ]
      ]
    ]
  ]

  pub reorder_named-IsKept :
      (names : List Text) (s : State Content)
      → IsKept s
      → IsKept (reorder_named defaults from_str to_string disk names s).0
  unfolding reorder_named
  reorder_named-IsKept names s m =
      elim (Result-cases (preset_list defaults from_str to_string disk s)) [
        | inr (why, l) ↦ rw (reorder_named, l) m
        | inl (existing, l) ↦ elim (Result-cases disk.write) [
          | inr (why, w) ↦ rw (reorder_named, l, w) m
          | inl (done, w) ↦ rw (reorder_named, l, w) m
        ]
      ]

  -- Where the seeds are, `ensure` has nothing to do.
  pub ensure_managed :
      (s : State Content) → IsKept s → ensure defaults from_str to_string disk s ≡ (s, ok tt)
  unfolding ensure
  ensure_managed s m = elim (Bool-cases (is_empty s.presets)) [
    | inl e ↦
        let there : holds (codes "Simple") (names_of s.presets) ≡ true =
          m.seeded (codes "Simple") seed_simple in
        cc (there, empty-holds (codes "Simple") s.presets e)
    | inr e ↦ rw (ensure, e) refl
  ]
