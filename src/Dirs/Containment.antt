-- ===== src/Dirs/Containment.antt =====
-- Where the paths that `session_path` of src-tauri/src/dirs.rs accepts lie.
use alayaface.Prelude.{
  ◌≡◌, refl, ap, sym, ◌∙◌, subst, true, false, some, List, [], ◌∷◌, ◌++◌, append_assoc, Text,
  contains, is_empty, if◌then◌else◌, ok, arith, Bool-cases, Option-cases, inl, inr,
}
use alayaface.Chars.{trim}
use alayaface.Dirs.Names.{safe_path_component}
use alayaface.Dirs.Paths.{
  FilePath, join, strip_prefix, resolve_origin_session_dir, contained_under, nested_path,
  session_path,
}
use alayaface.Dirs.Joining.{
  join-safe, strip_parts-append, strip_parts_self, nested_parts, nested_path-parts,
}

-- The components of the path are those of the root and at least one more.
unfoldable pub IsBelow : FilePath → FilePath → Type 0
IsBelow root p =
    (b : Text) × (bs : List Text) × (p
      ≡ record { is_absolute = true; parts = root.parts ++ b ∷ bs })

file_path_eq :
    (p : FilePath) (ps : List Text)
    → p.is_absolute ≡ true
    → p.parts ≡ ps
    → p ≡ record { is_absolute = true; parts = ps }
file_path_eq p ps ha hp = λ i. record { is_absolute = ha i; parts = hp i }

strip_prefix_ok :
    (root p : FilePath) (rel : List Text)
    → root.is_absolute ≡ true
    → strip_prefix p root ≡ some rel
    → (p.is_absolute ≡ true) × (p.parts ≡ root.parts ++ rel)
unfolding strip_prefix
strip_prefix_ok root p rel abs h = elim (Bool-cases p.is_absolute) [
  | inl e ↦ (e, strip_parts-append root.parts p.parts rel (ground arith))
  | inr e ↦ ground arith
]

strip_prefix-IsBelow :
    (root p : FilePath) (rel : List Text)
    → root.is_absolute ≡ true
    → strip_prefix p root ≡ some rel
    → is_empty rel ≡ false
    → IsBelow root p
unfolding IsBelow
strip_prefix-IsBelow root p [] abs h ne = cc
strip_prefix-IsBelow root p (b ∷ bs) abs h ne =
    let (ha, hp) = strip_prefix_ok root p (b ∷ bs) abs h in
    (b, bs, file_path_eq p (root.parts ++ b ∷ bs) ha hp)

contained_under_ok :
    (root path p : FilePath)
    → root.is_absolute ≡ true
    → contained_under root path ≡ ok p
    → IsBelow root p
unfolding contained_under
contained_under_ok root path p abs h = elim (Option-cases (strip_prefix path root)) [
  | inl e ↦ ground arith
  | inr (rel, e) ↦ elim (Bool-cases (is_empty rel)) [
    | inl ne ↦ ground arith
    | inr ne ↦
        let same : p ≡ path = ground arith in
        subst (IsBelow root) (sym same) (strip_prefix-IsBelow root path rel abs e ne)
  ]
]

session_path_plain :
    (root p : FilePath) (origin plan_id node_id session_id : Text)
    → root.is_absolute ≡ true
    → session_path root origin plan_id node_id session_id ≡ ok p
    → safe_path_component session_id ≡ true
    → is_empty (trim plan_id) ≡ true
    → p ≡ record { is_absolute = true; parts = root.parts ++ session_id ∷ [] }
unfolding session_path
session_path_plain root p origin plan_id node_id session_id abs h safe plain =
    let same : p ≡ join root session_id = ground arith in same ∙ join-safe root session_id abs safe

-- Every path that `session_path` accepts lies below the sessions directory by its components: they are
-- those of the sessions directory and at least one more. The sessions directory is absolute. (A `..`
-- among the components counts as one here.)
pub session_path-IsBelow :
    (root p : FilePath) (origin plan_id node_id session_id : Text)
    → root.is_absolute ≡ true
    → session_path root origin plan_id node_id session_id ≡ ok p
    → IsBelow root p
unfolding session_path IsBelow
session_path-IsBelow root p origin plan_id node_id session_id abs h =
    elim (Bool-cases (safe_path_component session_id)) [
      | inl safe ↦ elim (Bool-cases (is_empty (trim plan_id))) [
        | inl plain ↦ (
          session_id,
          [],
          session_path_plain root p origin plan_id node_id session_id abs h safe plain,
        )
        | inr nested ↦
            contained_under_ok root (nested_path root origin plan_id node_id session_id) p abs
              (ground arith)
      ]
      | inr unsafe ↦ ground arith
    ]

-- `resolve_origin_session_dir` on the bare id of a session
pub origin_bare :
    (root : FilePath) (origin s : Text)
    → trim origin ≡ s
    → is_empty s ≡ false
    → contains b'/' s ≡ false
    → contains b'\\' s ≡ false
    → resolve_origin_session_dir root origin ≡ join root s
unfolding resolve_origin_session_dir
origin_bare root origin s t ne a b = rw (resolve_origin_session_dir, t, ne, a, b) refl

contained_under_below :
    (root path : FilePath) (b : Text) (bs : List Text)
    → root.is_absolute ≡ true
    → path ≡ record { is_absolute = true; parts = root.parts ++ b ∷ bs }
    → contained_under root path ≡ ok path
unfolding contained_under strip_prefix
contained_under_below root path b bs abs e =
    rw (contained_under, e, strip_prefix, abs, strip_parts_self root.parts (b ∷ bs)) (ap ok e)

owner_tests :
    (s : Text)
    → safe_path_component s ≡ true
    → (is_empty s ≡ false) × (contains b'/' s ≡ false) × (contains b'\\' s ≡ false)
unfolding safe_path_component
owner_tests s h = ground arith

owner_dir :
    (root : FilePath) (origin : Text)
    → root.is_absolute ≡ true
    → safe_path_component (trim origin) ≡ true
    → resolve_origin_session_dir root origin
      ≡ record { is_absolute = true; parts = root.parts ++ trim origin ∷ [] }
owner_dir root origin abs h =
    let (ne, slash, backslash) = owner_tests (trim origin) h in
    origin_bare root origin (trim origin) refl ne slash backslash
    ∙ join-safe root (trim origin) abs h

-- The path under the session `s`, when its bare id is given for the origin.
pub bare_origin :
    (root : FilePath) (origin s plan_id node_id session_id : Text)
    → root.is_absolute ≡ true
    → resolve_origin_session_dir root origin
      ≡ record { is_absolute = true; parts = root.parts ++ s ∷ [] }
    → safe_path_component session_id ≡ true
    → is_empty (trim plan_id) ≡ false
    → session_path root origin plan_id node_id session_id
      ≡ ok record {
        is_absolute = true;
        parts = root.parts ++ s ∷ nested_parts plan_id node_id session_id;
      }
unfolding session_path
bare_origin root origin s plan_id node_id session_id abs at safe nested =
    let whole : nested_path root origin plan_id node_id session_id ≡ record {
      is_absolute = true;
      parts = root.parts ++ s ∷ nested_parts plan_id node_id session_id;
    } =
      nested_path-parts root origin plan_id node_id session_id (ap (λ p. p.is_absolute) at) safe
      ∙ ap (λ ps. record { is_absolute = true; parts = ps })
          (ap (λ ps. ps ++ nested_parts plan_id node_id session_id) (ap (λ p. p.parts) at)
            ∙ append_assoc root.parts (s ∷ []) (nested_parts plan_id node_id session_id)) in
    rw
      (
        session_path,
        safe,
        nested,
        contained_under_below root (nested_path root origin plan_id node_id session_id) s
            (nested_parts plan_id node_id session_id) abs whole,
      )
      (ap ok whole)

-- For a session id that is a safe path component, the path is determined: without a plan it is the id
-- below the absolute sessions directory; with one, and the bare id of the owning session (a safe path
-- component as well) for the origin, it is `plans`, the sanitized plan id, the sanitized node id and
-- the session id below the directory of that owner.
pub session_path-parts :
    (root : FilePath) (origin plan_id node_id session_id : Text)
    → root.is_absolute ≡ true
    → safe_path_component (trim origin) ≡ true
    → safe_path_component session_id ≡ true
    → session_path root origin plan_id node_id session_id
      ≡ ok record {
        is_absolute = true;
        parts =
            root.parts
            ++ (if is_empty (trim plan_id)
                then session_id ∷ []
                else trim origin ∷ nested_parts plan_id node_id session_id);
      }
unfolding session_path
session_path-parts root origin plan_id node_id session_id abs owner safe =
    elim (Bool-cases (is_empty (trim plan_id))) [
      | inl plain ↦ rw (session_path, safe, plain) (ap ok (join-safe root session_id abs safe))
      | inr nested ↦
          bare_origin root origin (trim origin) plan_id node_id session_id abs
            (owner_dir root origin abs owner) safe nested
          ∙ ap
              (λ b. ok record {
                is_absolute = true;
                parts =
                    root.parts
                    ++ (if b
                        then session_id ∷ []
                        else trim origin ∷ nested_parts plan_id node_id session_id);
              })
              (sym nested)
    ]
