-- ===== src/Binary/Found.antt =====
-- What `find_binary` of src-tauri/src/alayacore.rs answers with.
use alayaface.Prelude.{
  ℕ, ◌<◌, ◌≡◌, refl, subst, sym, ap, ◌∙◌, Bool, true, false, none, some, and_then, List, [], ◌∷◌,
  Text, codes, is_empty, ltb, ltb→lt, Option-cases, Bool-cases, inl, inr, ◌⊎◌, if◌then◌else◌, all,
  not, arith,
}
use alayaface.Chars.{trim}
use alayaface.Dirs.Paths.{FilePath, parse_path, path_text}
use alayaface.Binary.{
  System, bundled_binary_path_from, candidates, filled, bundled, from_env, from_which,
  first_candidate, find_binary,
}

-- The path of a file that is not empty, next to the running program.
abbrev pub IsBundled : System → Text → Type 0
IsBundled sys bin =
    (path : FilePath) × (len : ℕ) × (and_then sys.current_exe bundled_binary_path_from ≡ some path)
    × (sys.file_len path ≡ some len)
    × (0 < len)
    × (bin ≡ path_text path)

abbrev pub IsThere : System → Text → Type 0
IsThere sys bin = sys.exists (parse_path bin) ≡ true

abbrev pub IsFromWhich : System → Text → Type 0
IsFromWhich sys bin =
    (line : Text) × (sys.which ≡ some line) × (bin ≡ trim line) × (is_empty bin ≡ false)

abbrev pub none_exists : System → List Text → Bool
none_exists sys = all (λ c. not (sys.exists (parse_path c)))

if_some :
    {A : Type 0} (b : Bool) (x y : A) → (if b then some x else none) ≡ some y → (b ≡ true) × (x ≡ y)
if_some true x y h = (refl, ground arith)
if_some false x y h = cc

bundled-IsBundled :
    (sys : System) (path : FilePath) → bundled sys ≡ some path → IsBundled sys (path_text path)
unfolding bundled
bundled-IsBundled sys path h =
    elim (Option-cases (and_then sys.current_exe bundled_binary_path_from)) [
      | inl e ↦ let no : none ≡ some path = sym (rw (bundled, e) refl) ∙ h in cc
      | inr (p, e) ↦ elim (Option-cases (sys.file_len p)) [
        | inl f ↦ let no : none ≡ some path = sym (rw (bundled, e, f) refl) ∙ h in cc
        | inr (len, f) ↦
            let (filled, same) = if_some (ltb 0 len) p path (sym (rw (bundled, e, f) refl) ∙ h) in
            (p, len, e, f, ltb→lt 0 len filled, ap path_text (sym same))
      ]
    ]

from_env-IsThere : (sys : System) (bin : Text) → from_env sys ≡ some bin → IsThere sys bin
unfolding from_env
from_env-IsThere sys bin h = elim (Option-cases (filled sys.env_bin)) [
  | inl e ↦ let no : none ≡ some bin = sym (rw (from_env, e) refl) ∙ h in cc
  | inr (b, e) ↦
      let (there, same) =
        if_some (sys.exists (parse_path b)) b bin (sym (rw (from_env, e) refl) ∙ h) in
      ap (λ x. sys.exists (parse_path x)) (sym same) ∙ there
]

filled-some : (t bin : Text) → filled (some t) ≡ some bin → (is_empty bin ≡ false) × (t ≡ bin)
filled-some [] bin h = cc
filled-some (c ∷ cs) bin h =
    let same : c ∷ cs ≡ bin = ground arith in (ap is_empty (sym same), same)

from_which-IsFromWhich :
    (sys : System) (bin : Text) → from_which sys ≡ some bin → IsFromWhich sys bin
unfolding from_which
from_which-IsFromWhich sys bin h = elim (Option-cases sys.which) [
  | inl e ↦ let no : none ≡ some bin = sym (rw (from_which, e) refl) ∙ h in cc
  | inr (line, e) ↦
      let (full, same) = filled-some (trim line) bin (sym (rw (from_which, e) refl) ∙ h) in
      (line, e, sym same, full)
]

first_candidate-IsThere :
    (sys : System) (cs : List Text) (bin : Text)
    → first_candidate sys cs ≡ some bin
    → IsThere sys bin
unfolding first_candidate
first_candidate-IsThere sys [] bin h = cc
first_candidate-IsThere sys (c ∷ cs) bin h = elim (Bool-cases (sys.exists (parse_path c))) [
  | inl e ↦
      let (there, same) = if_some true c bin (sym (rw e refl) ∙ h) in
      ap (λ x. sys.exists (parse_path x)) (sym same) ∙ e
  | inr e ↦ first_candidate-IsThere sys cs bin (sym (rw e refl) ∙ h)
]

first_candidate-none :
    (sys : System) (cs : List Text) → first_candidate sys cs ≡ none → none_exists sys cs ≡ true
unfolding first_candidate
first_candidate-none sys [] h = refl
first_candidate-none sys (c ∷ cs) h = elim (Bool-cases (sys.exists (parse_path c))) [
  | inl e ↦ let no : some c ≡ none = sym (rw e refl) ∙ h in cc
  | inr e ↦ rw e (first_candidate-none sys cs (sym (rw e refl) ∙ h))
]

-- The binary that is found is the bundled one, which is not an empty stub; or else it exists, named by the
-- environment or at a common location; or it is what `which` names. Failing all of these it is the bare
-- name, and then no common location exists.
pub find_binary-found :
    (sys : System)
    → IsBundled sys (find_binary sys)
      ⊎ IsThere sys (find_binary sys)
      ⊎ IsFromWhich sys (find_binary sys)
      ⊎ ((find_binary sys ≡ codes "alayacore") × (none_exists sys candidates ≡ true))
unfolding find_binary
find_binary-found sys = elim (Option-cases (bundled sys)) [
  | inr (path, b) ↦
      let at : find_binary sys ≡ path_text path = rw (find_binary, b) refl in
      inl (subst (IsBundled sys) (sym at) (bundled-IsBundled sys path b))
  | inl b ↦ elim (Option-cases (from_env sys)) [
    | inr (bin, e) ↦
        let at : find_binary sys ≡ bin = rw (find_binary, b, e) refl in
        inr (inl (subst (IsThere sys) (sym at) (from_env-IsThere sys bin e)))
    | inl e ↦ elim (Option-cases (from_which sys)) [
      | inr (bin, w) ↦
          let at : find_binary sys ≡ bin = rw (find_binary, b, e, w) refl in
          inr (inr (inl (subst (IsFromWhich sys) (sym at) (from_which-IsFromWhich sys bin w))))
      | inl w ↦ elim (Option-cases (first_candidate sys candidates)) [
        | inr (bin, c) ↦
            let at : find_binary sys ≡ bin = rw (find_binary, b, e, w, c) refl in
            inr (inl (subst (IsThere sys) (sym at) (first_candidate-IsThere sys candidates bin c)))
        | inl c ↦
            let at : find_binary sys ≡ codes "alayacore" = rw (find_binary, b, e, w, c) refl in
            inr (inr (inr (at, first_candidate-none sys candidates c)))
      ]
    ]
  ]
]
