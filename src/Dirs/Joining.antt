-- ===== src/Dirs/Joining.antt =====
-- Paths of src-tauri/src/dirs.rs, joined from safe components.
use alayaface.Prelude.{
  ◌≡◌, refl, ap, true, false, not, ◌&&◌, some, List, [], ◌∷◌, ◌++◌, Text, codes, text_eq,
  text_eq_refl, eq_of_text_eq, contains, is_empty, arith, Bool-cases, inl, inr,
}
use alayaface.Chars.Splitting.{split_on-none}
use alayaface.Chars.{split_on}
use alayaface.Dirs.Names.{sanitize_dir_component, safe_path_component}
use alayaface.Dirs.Safety.{sanitize_dir_component-safe}
use alayaface.Dirs.Paths.{
  FilePath, dot, normal_parts, is_rooted, join, strip_parts, resolve_origin_session_dir,
  nested_path, parse_path,
}

normal_parts-one :
    (s : Text) → is_empty s ≡ false → text_eq s dot ≡ false → normal_parts (s ∷ []) ≡ s ∷ []
unfolding normal_parts
normal_parts-one s ne nd = rw (normal_parts, ne, nd) refl

component_tests :
    (s : Text)
    → safe_path_component s ≡ true
    → (is_empty s ≡ false) × (text_eq s dot ≡ false) × (contains b'/' s ≡ false)
unfolding safe_path_component
component_tests s h = ground arith

-- A safe component is one component.
normal_parts-safe :
    (s : Text) → safe_path_component s ≡ true → normal_parts (split_on b'/' s) ≡ s ∷ []
normal_parts-safe s h =
    let (ne, nd, ns) = component_tests s h in
    rw (split_on-none b'/' s ns) (normal_parts-one s ne nd)

is_rooted-safe : (s : Text) → safe_path_component s ≡ true → is_rooted s ≡ false
unfolding safe_path_component
is_rooted-safe [] h = refl
is_rooted-safe (c ∷ cs) h = ground arith

-- Joining a safe component puts it behind the components of the base.
pub join-safe :
    (base : FilePath) (s : Text)
    → base.is_absolute ≡ true
    → safe_path_component s ≡ true
    → join base s ≡ record { is_absolute = true; parts = base.parts ++ s ∷ [] }
unfolding join
join-safe base s abs h = rw (join, is_rooted-safe s h, normal_parts-safe s h, abs) refl

pub strip_parts-append : (rs ps rest : List Text) → strip_parts rs ps ≡ some rest → ps ≡ rs ++ rest
unfolding strip_parts
strip_parts-append [] ps rest h = ground arith
strip_parts-append (r ∷ rs) [] rest h = cc
strip_parts-append (r ∷ rs) (p ∷ ps) rest h =
    ground (arith, strip_parts-append rs ps rest, eq_of_text_eq r p)

pub strip_parts_self : (rs rest : List Text) → strip_parts rs (rs ++ rest) ≡ some rest
unfolding strip_parts
strip_parts_self [] rest = refl
strip_parts_self (r ∷ rs) rest = rw (text_eq_refl r) (strip_parts_self rs rest)

pub join-IsAbsolute :
    (base : FilePath) (s : Text)
    → safe_path_component s ≡ true
    → (join base s).is_absolute ≡ base.is_absolute
unfolding join parse_path
join-IsAbsolute base s h = elim (Bool-cases (not base.is_absolute && is_empty base.parts)) [
  | inl e ↦ rw (join, is_rooted-safe s h, e) (ground arith)
  | inr e ↦ rw (join, is_rooted-safe s h, e) refl
]

-- The components below the directory of the owning session.
abbrev pub nested_parts : Text → Text → Text → List Text
nested_parts plan_id node_id session_id =
    codes "plans"
    ∷ sanitize_dir_component plan_id
    ∷ sanitize_dir_component node_id
    ∷ session_id
    ∷ []

pub safe_plans : safe_path_component (codes "plans") ≡ true
unfolding safe_path_component text_eq
safe_plans = refl

append-four :
    (xs : List Text) (a b c d : Text)
    → (((xs ++ a ∷ []) ++ b ∷ []) ++ c ∷ []) ++ d ∷ [] ≡ xs ++ a ∷ b ∷ c ∷ d ∷ []
append-four [] a b c d = refl
append-four (x ∷ xs) a b c d = ap (◌∷◌ x) (append-four xs a b c d)

pub sanitized : (s : Text) → safe_path_component (sanitize_dir_component s) ≡ true
sanitized s = let (safe, named, again) = sanitize_dir_component-safe s in safe

join_four :
    (base : FilePath) (a b c d : Text)
    → base.is_absolute ≡ true
    → safe_path_component a ≡ true
    → safe_path_component b ≡ true
    → safe_path_component c ≡ true
    → safe_path_component d ≡ true
    → join (join (join (join base a) b) c) d
      ≡ record { is_absolute = true; parts = base.parts ++ a ∷ b ∷ c ∷ d ∷ [] }
join_four base a b c d abs ha hb hc hd =
    rw
      (
        join-safe base a abs ha,
        join-safe record { is_absolute = true; parts = base.parts ++ a ∷ [] } b refl hb,
        join-safe record { is_absolute = true; parts = (base.parts ++ a ∷ []) ++ b ∷ [] } c refl hc,
        join-safe
            record { is_absolute = true; parts = ((base.parts ++ a ∷ []) ++ b ∷ []) ++ c ∷ [] } d
            refl hd,
      )
      (ap (λ ps. record { is_absolute = true; parts = ps }) (append-four base.parts a b c d))

pub nested_path-parts :
    (root : FilePath) (origin plan_id node_id session_id : Text)
    → (resolve_origin_session_dir root origin).is_absolute ≡ true
    → safe_path_component session_id ≡ true
    → nested_path root origin plan_id node_id session_id ≡ record {
      is_absolute = true;
      parts =
          (resolve_origin_session_dir root origin).parts ++ nested_parts plan_id node_id session_id;
    }
unfolding nested_path
nested_path-parts root origin plan_id node_id session_id abs h =
    join_four (resolve_origin_session_dir root origin) (codes "plans")
      (sanitize_dir_component plan_id) (sanitize_dir_component node_id) session_id abs safe_plans
      (sanitized plan_id) (sanitized node_id) h
