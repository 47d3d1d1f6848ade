-- ===== src/Sessions/Placing.antt =====
-- A new session's directory is the one where the later commands look for it.
use alayaface.Prelude.{
  ◌≡◌, refl, sym, ap, ◌∙◌, true, false, Option, none, some, Option-cases, List, [], ◌∷◌, ◌++◌, Text,
  is_empty, Bool-cases, inl, inr, ok, err, Result-cases, refused, same_ok, same_answer, codes,
  if◌then◌else◌,
}
use alayaface.Chars.{trim}
use alayaface.Dirs.Names.{safe_path_component, sanitize_dir_component}
use alayaface.Dirs.Paths.{
  FilePath, PathError, join, nested_path, contained_under, strip_prefix, session_path, path_message,
  resolve_origin_session_dir,
}
use alayaface.Dirs.Joining.{join-safe, join-IsAbsolute}
use alayaface.Dirs.Containment.{IsBelow, session_path-IsBelow}
use alayaface.Dirs.Presets.{config_message, resolve_config_dir}
use alayaface.Spawning.{drop_last, parent}
use alayaface.Sessions.{State, Os, Place, given, or_empty, place_of}
use alayaface.Sessions.Starting.{create_session_dir_in, create_session_dir}

drop_last-snoc : (ws : List Text) (w : Text) → drop_last (ws ++ w ∷ []) ≡ ws
unfolding drop_last
drop_last-snoc [] w = refl
drop_last-snoc (v ∷ []) w = refl
drop_last-snoc (v ∷ u ∷ ws) w = ap (◌∷◌ v) (drop_last-snoc (u ∷ ws) w)

-- A new directory of a session, which is where it was asked for.
create_session_dir_in-ok :
    (os : Os) (base : FilePath) (id preset : Text) (s s' : State) (dir : FilePath)
    → create_session_dir_in os base id preset s ≡ (s', ok dir)
    → (dir ≡ join base id) × (s' ≡ record s { dirs = dir ∷ s.dirs })
unfolding create_session_dir_in
create_session_dir_in-ok os base id preset s s' dir h = elim (Result-cases os.ensured) [
  | inr (why, e) ↦ refused s why (rw (create_session_dir_in, e) refl) h
  | inl (done, e) ↦ elim (Result-cases (resolve_config_dir os.exists os.presets_root preset)) [
    | inr (why, f) ↦ refused s (config_message why) (rw (create_session_dir_in, e, f) refl) h
    | inl (template, f) ↦ elim (Result-cases os.copied) [
      | inl (done', g) ↦
          let (after, at) =
            same_answer s' (record s { dirs = join base id ∷ s.dirs }) dir (join base id)
              (sym h ∙ rw (create_session_dir_in, e, f, g) refl) in
          (at, after ∙ ap (λ d. record s { dirs = d ∷ s.dirs }) (sym at))
      | inr ((left, why), g) ↦
          refused (if left then record s { dirs = join base id ∷ s.dirs } else s) why
            (rw (create_session_dir_in, e, f, g) refl) h
    ]
  ]
]

is_empty-snoc : (ws : List Text) (w : Text) → is_empty (ws ++ w ∷ []) ≡ false
is_empty-snoc [] w = refl
is_empty-snoc (v ∷ ws) w = refl

parent-join :
    (base : FilePath) (id : Text)
    → base.is_absolute ≡ true
    → safe_path_component id ≡ true
    → (b : FilePath) × (parent (join base id) ≡ some b) × (join b id ≡ join base id)
unfolding parent
parent-join base id absolute safe =
    let b : FilePath = record { is_absolute = true; parts = base.parts } in
    (
      b,
      rw
          (
            parent,
            join-safe base id absolute safe,
            is_empty-snoc base.parts id,
            drop_last-snoc base.parts id,
          )
          refl,
      join-safe b id refl safe ∙ sym (join-safe base id absolute safe),
    )

contained_under-same : (root path dir : FilePath) → contained_under root path ≡ ok dir → path ≡ dir
unfolding contained_under
contained_under-same root path dir h = elim (Option-cases (strip_prefix path root)) [
  | inl e ↦
      let no : err (PathError.escapes path) ≡ ok dir = sym (rw (contained_under, e) refl) ∙ h in cc
  | inr (rel, e) ↦ elim (Bool-cases (is_empty rel)) [
    | inl f ↦
        let no : err (PathError.escapes path) ≡ ok dir =
          sym (rw (contained_under, e, f) refl) ∙ h in
        cc
    | inr f ↦ same_ok path dir (sym (rw (contained_under, e, f) refl) ∙ h)
  ]
]

plain_place : (o : Option Text) → given o ≡ none → is_empty (trim (or_empty o)) ≡ true
unfolding given trim
plain_place none h = refl
plain_place (some t) h = elim (Bool-cases (is_empty (trim t))) [
  | inl e ↦ e
  | inr e ↦ let no : some t ≡ none = sym (rw e refl) ∙ h in cc
]

nested_place :
    (o : Option Text) (pid : Text) → given o ≡ some pid → is_empty (trim (or_empty o)) ≡ false
unfolding given
nested_place none pid h = cc
nested_place (some t) pid h = elim (Bool-cases (is_empty (trim t))) [
  | inl e ↦ let no : none ≡ some pid = sym (rw e refl) ∙ h in cc
  | inr e ↦ e
]

-- the directory of a plan node's session stands in one that it can be made in again
nested-parent :
    (root : FilePath) (origin plan_id node_id id : Text) (dir : FilePath)
    → root.is_absolute ≡ true
    → safe_path_component id ≡ true
    → is_empty (trim plan_id) ≡ false
    → session_path root origin plan_id node_id id ≡ ok dir
    → (b : FilePath) × (parent dir ≡ some b) × (join b id ≡ dir)
unfolding session_path nested_path IsBelow
nested-parent root origin plan_id node_id id dir absolute safe nested h =
    let base : FilePath =
      join
        (join (join (resolve_origin_session_dir root origin) (codes "plans"))
          (sanitize_dir_component plan_id))
        (sanitize_dir_component node_id) in
    let same : join base id ≡ dir =
      contained_under-same root (join base id) dir
        (sym (rw (session_path, safe, nested, nested_path) refl) ∙ h) in
    let (b, bs, below) = session_path-IsBelow root dir origin plan_id node_id id absolute h in
    let rooted : base.is_absolute ≡ true =
      sym (join-IsAbsolute base id safe) ∙ ap (λ p. p.is_absolute) (same ∙ below) in
    let (up, at, again) = parent-join base id rooted safe in
    (up, ap parent (sym same) ∙ at, again ∙ same)

found_path :
    (root : FilePath) (place : Place) (id : Text) (dir : FilePath)
    → place_of root place id ≡ ok dir
    → session_path root (or_empty place.origin) (or_empty place.plan_id) (or_empty place.node_id) id
      ≡ ok dir
unfolding place_of
found_path root place id dir h =
    elim (Result-cases (
      session_path root (or_empty place.origin) (or_empty place.plan_id) (or_empty place.node_id)
        id)) [
          | inl (d, e) ↦ e ∙ ap ok (same_ok d dir (sym (rw (place_of, e) refl) ∙ h))
          | inr (why, e) ↦
              let no : err (path_message why) ≡ ok dir = sym (rw (place_of, e) refl) ∙ h in cc
        ]

-- A directory that was made for a new session is the one that `session_path` gives for its id.
pub create_session_dir-place_of :
    (os : Os) (place : Place) (preset : Text) (s s' : State) (dir : FilePath)
    → os.sessions_root.is_absolute ≡ true
    → safe_path_component os.new_id ≡ true
    → create_session_dir os place preset s ≡ (s', ok dir)
    → (place_of os.sessions_root place os.new_id ≡ ok dir) × (s' ≡ record s { dirs = dir ∷ s.dirs })
unfolding create_session_dir place_of session_path
create_session_dir-place_of os place preset s s' dir absolute safe h =
    elim (Option-cases (given place.plan_id)) [
      | inl e ↦
          let (at, after) =
            create_session_dir_in-ok os os.sessions_root os.new_id preset s s' dir
              (sym (rw (create_session_dir, e) refl) ∙ h) in
          (rw (place_of, session_path, safe, plain_place place.plan_id e, at) refl, after)
      | inr (pid, e) ↦ elim (Result-cases (place_of os.sessions_root place os.new_id)) [
        | inr (why, f) ↦ refused s why (rw (create_session_dir, e, f) refl) h
        | inl (d, f) ↦
            let (base, up, again) =
              nested-parent os.sessions_root (or_empty place.origin) (or_empty place.plan_id)
                (or_empty place.node_id) os.new_id d absolute safe
                (nested_place place.plan_id pid e)
                (found_path os.sessions_root place os.new_id d f) in
            let (at, after) =
              create_session_dir_in-ok os base os.new_id preset s s' dir
                (sym (rw (create_session_dir, e, f, up) refl) ∙ h) in
            (f ∙ ap ok (sym (at ∙ again)), after)
      ]
    ]
