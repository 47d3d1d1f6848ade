-- ===== src/Sessions/Deleting.antt =====
-- What `delete_session_dir` of src-tauri/src/commands/sessions.rs does.
use alayaface.Prelude.{
  ◌≡◌, refl, ap, ◌∙◌, Bool, true, false, ◌||◌, Option, none, some, List, [], ◌∷◌, ◌++◌, Text, codes,
  any, is_empty, if◌then◌else◌, Bool-cases, inl, inr, Result, ok, err,
}
use alayaface.Dirs.Paths.{FilePath, path_eq, path_text}
use alayaface.Sessions.{State, Place, get, is_active, spawn_file, close, place_of}
use alayaface.Sessions.Starting.{Attempt, delete_loop}
use alayaface.Sessions.Commands.{keep_dirs, keep_files, remove_dir, delete_session_dir}

-- The turn finds that the directory is gone, before it removes it or by removing it.
abbrev pub sees_gone : Attempt → Bool
sees_gone a = a.gone_before || (elim a.remove_err [ none ↦ a.gone_after | some e ↦ false ])

-- the error of the last turn
abbrev pub last_error : List Attempt → Option Text
last_error [] = none
last_error (a ∷ rest) = if is_empty rest then a.remove_err else last_error rest

abbrev answer_of : FilePath → List Attempt → Bool × Result Text (Unit {0})
answer_of dir turns = if any sees_gone turns then (true, ok tt) else elim (last_error turns) [
  | none ↦ (false, ok tt)
  | some e ↦ (false, err (codes "Cannot delete " ++ path_text dir ++ codes ": " ++ e))
]

delete_loop-turn :
    (dir : FilePath) (before : Bool) (remove_err : Option Text) (after : Bool) (rest : List Attempt)
    → delete_loop dir rest ≡ answer_of dir rest
    → delete_loop dir
        (record { gone_before = before; remove_err = remove_err; gone_after = after } ∷ rest)
      ≡ answer_of dir
          (record { gone_before = before; remove_err = remove_err; gone_after = after } ∷ rest)
unfolding delete_loop
delete_loop-turn dir true o after rest ih = refl
delete_loop-turn dir false none true rest ih = refl
delete_loop-turn dir false none false [] ih = refl
delete_loop-turn dir false none false (a ∷ rest) ih = ih
delete_loop-turn dir false (some e) after [] ih = refl
delete_loop-turn dir false (some e) after (a ∷ rest) ih = ih

-- The answer of the loop, for any number of turns: it is a success with the directory gone if any turn
-- finds it gone. Otherwise it is the error of the last turn, if that has one; and if the last removal
-- reported no error, the loop succeeds although the directory is still there.
pub delete_loop-answer :
    (dir : FilePath) (turns : List Attempt)
    → delete_loop dir turns ≡ (
        if any sees_gone turns then (true, ok tt) else elim (last_error turns) [
          | none ↦ (false, ok tt)
          | some e ↦ (false, err (codes "Cannot delete " ++ path_text dir ++ codes ": " ++ e))
        ])
unfolding delete_loop
delete_loop-answer dir [] = refl
delete_loop-answer dir (a ∷ rest) =
    delete_loop-turn dir a.gone_before a.remove_err a.gone_after rest (delete_loop-answer dir rest)

keep_dirs-gone :
    (gone : FilePath) (ds : List FilePath) → any (λ d. path_eq d gone) (keep_dirs gone ds) ≡ false
unfolding keep_dirs
keep_dirs-gone gone [] = refl
keep_dirs-gone gone (d ∷ ds) = elim (Bool-cases (path_eq d gone)) [
  | inl e ↦ rw e (keep_dirs-gone gone ds)
  | inr e ↦ rw (e) (rw e (keep_dirs-gone gone ds))
]

keep_files-gone :
    (gone : FilePath) (fs : List (FilePath × Text)) → spawn_file gone (keep_files gone fs) ≡ none
unfolding keep_files spawn_file
keep_files-gone gone [] = refl
keep_files-gone gone ((d, text) ∷ fs) = elim (Bool-cases (path_eq d gone)) [
  | inl e ↦ rw e (keep_files-gone gone fs)
  | inr e ↦ rw (e) (rw e (keep_files-gone gone fs))
]

-- A session that was resumed runs under another id than its directory's. Deleting that directory by its
-- id succeeds where a turn finds it gone, with its spawn arguments: but the sessions of the backend are
-- those of before, none of them closed, and the resumed one still runs in the directory.
pub delete_session_dir-resumed :
    (root : FilePath) (turns : FilePath → List Attempt) (place : Place) (id : Text) (s : State)
    (dir : FilePath)
    → place_of root place id ≡ ok dir
    → get id s.sessions ≡ none
    → is_active dir s.sessions ≡ true
    → any sees_gone (turns dir) ≡ true
    → (s' : State) × (delete_session_dir root turns place id s ≡ (s', ok tt))
      × (any (λ d. path_eq d dir) s'.dirs ≡ false)
      × (spawn_file dir s'.spawn_files ≡ none)
      × (s'.sessions ≡ s.sessions)
      × (is_active dir s'.sessions ≡ true)
unfolding delete_session_dir close remove_dir
delete_session_dir-resumed root turns place id s dir at unknown active gone =
    let answer : delete_loop dir (turns dir) ≡ (true, ok tt) =
      delete_loop-answer dir (turns dir) ∙ rw gone refl in
    let closed : (close id s).0 ≡ s = rw (close, unknown) refl in
    (
      remove_dir dir s,
      rw (delete_session_dir, at, answer) (ap (λ c. (remove_dir dir c, ok tt)) closed),
      keep_dirs-gone dir s.dirs,
      keep_files-gone dir s.spawn_files,
      refl,
      active,
    )
