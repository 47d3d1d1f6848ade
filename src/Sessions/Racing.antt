-- ===== src/Sessions/Racing.antt =====
-- Resuming a session that runs: one command after another, and two at once.
use alayaface.Prelude.{
  ◌≡◌, refl, sym, ap, ◌∙◌, Bool, true, false, Option, none, some, List, [], ◌∷◌, Text, text_eq,
  text_eq_refl, Result, ok, err, ok_of_bind, ap₂, codes, not, any, if◌then◌else◌, arith,
  text_eq_iff,
}
use alayaface.Dirs.Paths.{FilePath, path_eq, same_parts, same_kind}
use alayaface.Spawning.{SpawnSerde, Launch}
use alayaface.Versions.{session_file_rejection}
use alayaface.Sessions.{State, Os, Place, or_empty, place_of, without, get, is_active}
use alayaface.Sessions.Starting.{config_dir, session_file}
use alayaface.Sessions.Started.{with_session, resume_start-alike, resume_start-ok}
use alayaface.Sessions.Commands.{check_dir, resume_check, resume_start, resume_session}

same_parts_refl : (ps : List Text) → same_parts ps ps ≡ true
unfolding same_parts
same_parts_refl [] = refl
same_parts_refl (p ∷ ps) = rw (text_eq_refl p, same_parts_refl ps) refl

same_kind_refl : (b : Bool) → same_kind b b ≡ true
same_kind_refl true = refl
same_kind_refl false = refl

pub path_eq_refl : (p : FilePath) → path_eq p p ≡ true
unfolding path_eq
path_eq_refl p = rw (same_kind_refl p.is_absolute, same_parts_refl p.parts) refl

-- What the checks have found.
pub record IsResumable (os : Os) (dir : FilePath) (s : State) : Type 0 where
  pub has_dir : any (λ d. path_eq d dir) s.dirs ≡ true
  pub has_file : os.exists (session_file dir) ≡ true
  pub has_config : os.exists (config_dir dir) ≡ true
  pub accepted :
      session_file_rejection os.from_utf8_lossy
        (os.file_bytes (session_file dir))
        (codes "session.alaya")
      ≡ none
  pub idle : is_active dir s.sessions ≡ false

guard_passed :
    (b : Bool) (why : Text) (rest : Result Text FilePath) (dir : FilePath)
    → (if not b then err why else rest) ≡ ok dir
    → (b ≡ true) × (rest ≡ ok dir)
guard_passed true why rest dir h = (refl, h)
guard_passed false why rest dir h = cc

last_passed :
    (o : Option Text) (b : Bool) (why : Text) (d dir : FilePath)
    → (elim o [ some e ↦ err e | none ↦ if b then err why else ok d ]) ≡ ok dir
    → (o ≡ none) × (b ≡ false) × (d ≡ dir)
last_passed (some e) b why d dir h = cc
last_passed none true why d dir h = cc
last_passed none false why d dir h = (refl, refl, ground arith)

pub check_dir-IsResumable :
    (os : Os) (d dir : FilePath) (s : State)
    → check_dir os d s ≡ ok dir
    → (d ≡ dir) × IsResumable os d s
unfolding check_dir
check_dir-IsResumable os d dir s h =
    let (has_dir, after_dir) = guard_passed _ _ _ dir h in
    let (has_file, after_file) = guard_passed _ _ _ dir after_dir in
    let (has_config, after_config) = guard_passed _ _ _ dir after_file in
    let (accepted, idle, same) = last_passed _ _ _ d dir after_config in
    (
      same,
      record {
        has_dir = has_dir;
        has_file = has_file;
        has_config = has_config;
        accepted = accepted;
        idle = idle;
      },
    )

-- What can be resumed is active once a session runs in it.
check_dir-active :
    (os : Os) (dir : FilePath) (s s' : State)
    → IsResumable os dir s
    → s'.dirs ≡ s.dirs
    → is_active dir s'.sessions ≡ true
    → check_dir os dir s' ≡ err (codes "Session is already active")
unfolding check_dir
check_dir-active os dir s s' r same active =
    rw (check_dir, same, r.has_dir, r.has_file, r.has_config, r.accepted, active) refl

get-with_session_below :
    (id owner other owner' : Text) (dir : FilePath) (launch launch' : Launch) (s : State)
    → text_eq id other ≡ false
    → get id (with_session other owner' dir launch' (with_session id owner dir launch s)).sessions
      ≡ some record { session_dir = dir; owner = owner }
unfolding get without
get-with_session_below id owner other owner' dir launch launch' s ne =
    let ne' : text_eq other id ≡ false =
      ground (arith, text_eq_iff other id, text_eq_iff id other) in
    rw (ne, ne', text_eq_refl id) refl

get-with_session :
    (id owner : Text) (dir : FilePath) (launch : Launch) (s : State)
    → get id (with_session id owner dir launch s).sessions
      ≡ some record { session_dir = dir; owner = owner }
unfolding get
get-with_session id owner dir launch s = rw (text_eq_refl id) refl

-- A directory that passes the checks of two commands, each of which can start its process alone and makes
-- an id of its own. Once the first has resumed the directory, the second is refused if it runs then. But if
-- it had passed its checks before the first started its process, as the lock on the map of sessions is
-- given up in between, it succeeds as well, and two sessions run in one directory.
pub resume_session-raced :
    (first second : Os) (spawns : SpawnSerde) (binary binary' : Text)
    (work_dir work_dir' client client' : Option Text) (place place' : Place) (id id' : Text)
    (dir : FilePath) (s s' t : State) (a b : Text)
    → resume_check first place id s ≡ ok dir
    → resume_check second place' id' s ≡ ok dir
    → resume_start first spawns binary work_dir client dir s ≡ (s', ok a)
    → resume_start second spawns binary' work_dir' client' dir s ≡ (t, ok b)
    → text_eq a b ≡ false
    → (resume_session second spawns id' binary' work_dir' place' client' s'
        ≡ (s', err (codes "Session is already active")))
      × (s'' : State) × (resume_start second spawns binary' work_dir' client' dir s' ≡ (s'', ok b))
      × (get a s''.sessions ≡ some record { session_dir = dir; owner = or_empty client })
      × (get b s''.sessions ≡ some record { session_dir = dir; owner = or_empty client' })
unfolding resume_session resume_check is_active
resume_session-raced first second spawns binary binary' work_dir work_dir' client client' place
      place' id id' dir s s' t a b check check' run run' ne =
    let (launch, after, named) =
      resume_start-ok first spawns binary work_dir client dir s s' a run in
    let (launch', started', named') =
      resume_start-alike second spawns binary' work_dir' client' dir s t s' b run'
        (ap (λ x. x.spawn_files) after) in
    let (d, at, checked) =
      ok_of_bind (place_of second.sessions_root place' id') (λ d. check_dir second d s) check' in
    let (same, r) = check_dir-IsResumable second d dir s checked in
    let active : is_active d s'.sessions ≡ true =
      ap (λ x. is_active d x.sessions) after ∙ rw (same, path_eq_refl dir) refl in
    let apart : text_eq first.new_id second.new_id ≡ false = sym (ap₂ text_eq named named') ∙ ne in
    (
      rw
          (
            resume_session,
            resume_check,
            at,
            check_dir-active second d s s' r (ap (λ x. x.dirs) after) active,
          )
          refl,
      with_session second.new_id (or_empty client') dir launch' s',
      started',
      rw (after, named)
          (get-with_session_below first.new_id (or_empty client) second.new_id (or_empty client')
            dir launch launch' s apart),
      rw (named') (get-with_session second.new_id (or_empty client') dir launch' s'),
    )
