-- ===== src/Sessions/Started.antt =====
-- What `create` of src-tauri/src/session.rs leaves, and the end of `resume_session`.
use alayaface.Prelude.{
  same_answer, ◌≡◌, refl, sym, ap, ◌∙◌, Option, ◌∷◌, ◌++◌, Text, inl, inr, ok, Result-cases,
  refused, codes,
}
use alayaface.Dirs.Paths.{FilePath, path_text}
use alayaface.Spawning.{SpawnArgs, read_spawn_args, SpawnSerde, Launch}
use alayaface.Sessions.{State, Os, spawn_file, or_empty, or_balanced, without}
use alayaface.Sessions.Starting.{config_dir, create, launch_in}
use alayaface.Sessions.Commands.{resume_dir, resume_start, args_in}

-- The state once the process of a session runs.
abbrev pub with_session : Text → Text → FilePath → Launch → State → State
with_session id owner dir launch s = record s {
  sessions = (id, record { session_dir = dir; owner = owner }) ∷ without id s.sessions;
  launched = launch ∷ s.launched;
  announced = id ∷ s.announced;
}

pub create-started :
    (os : Os) (id owner : Text) (dir : FilePath) (launch : Launch) (s : State)
    → os.started launch ≡ ok tt
    → create os id owner dir launch s ≡ (with_session id owner dir launch s, ok id)
unfolding create
create-started os id owner dir launch s e = rw (create, e) refl

pub started-create :
    (os : Os) (id owner : Text) (dir : FilePath) (launch : Launch) (s s' : State) (a : Text)
    → create os id owner dir launch s ≡ (s', ok a)
    → os.started launch ≡ ok tt
unfolding create
started-create os id owner dir launch s s' a h = elim (Result-cases (os.started launch)) [
  | inl (done, e) ↦ e
  | inr (why, e) ↦ refused s (codes "Failed to start alayacore: " ++ why) (rw (create, e) refl) h
]

pub create-ok :
    (os : Os) (id owner : Text) (dir : FilePath) (launch : Launch) (s s' : State) (a : Text)
    → create os id owner dir launch s ≡ (s', ok a)
    → (s' ≡ with_session id owner dir launch s) × (a ≡ id)
create-ok os id owner dir launch s s' a h =
    same_answer s' (with_session id owner dir launch s) a id (
      sym h
      ∙ create-started os id owner dir launch s (started-create os id owner dir launch s s' a h))

-- what `resume_session` starts in a directory
abbrev pub resumed : Os → SpawnSerde → Text → FilePath → Option Text → State → Launch
resumed os spawns binary dir wd s =
    let kept = args_in os spawns dir s in
    launch_in os binary (path_text (config_dir dir)) dir
      record { spawn_args = kept; level = or_balanced kept.reasoning_level; child_dir = wd }

pub resume_start-create :
    (os : Os) (spawns : SpawnSerde) (binary : Text) (work_dir client wd : Option Text)
    (dir : FilePath) (s : State)
    → resume_dir os work_dir (args_in os spawns dir s) ≡ ok wd
    → resume_start os spawns binary work_dir client dir s
      ≡ create os os.new_id (or_empty client) dir (resumed os spawns binary dir wd s) s
unfolding resume_start
resume_start-create os spawns binary work_dir client wd dir s e = rw (resume_start, e) refl

-- Whether a process is started depends on the spawn files alone, not on the sessions that run.
pub resume_start-alike :
    (os : Os) (spawns : SpawnSerde) (binary : Text) (work_dir client : Option Text) (dir : FilePath)
    (s t s' : State) (a : Text)
    → resume_start os spawns binary work_dir client dir s ≡ (t, ok a)
    → s'.spawn_files ≡ s.spawn_files
    → (launch : Launch) × (resume_start os spawns binary work_dir client dir s'
        ≡ (with_session os.new_id (or_empty client) dir launch s', ok a))
      × (a ≡ os.new_id)
unfolding resume_start
resume_start-alike os spawns binary work_dir client dir s t s' a h files =
    elim (Result-cases (resume_dir os work_dir (args_in os spawns dir s))) [
      | inl (wd, e) ↦
          let launch = resumed os spawns binary dir wd s in
          let created = sym (resume_start-create os spawns binary work_dir client wd dir s e) ∙ h in
          let (after, named) = create-ok os os.new_id (or_empty client) dir launch s t a created in
          let started = started-create os os.new_id (or_empty client) dir launch s t a created in
          let kept : args_in os spawns dir s' ≡ args_in os spawns dir s =
            ap (λ fs. read_spawn_args spawns (spawn_file dir fs)) files in
          let launch_args = λ (kept : SpawnArgs).
            launch_in os binary (path_text (config_dir dir)) dir record {
              spawn_args = kept;
              level = or_balanced kept.reasoning_level;
              child_dir = wd;
            } in
          (
            launch,
            resume_start-create os spawns binary work_dir client wd dir s'
                  (ap (resume_dir os work_dir) kept ∙ e)
                ∙ ap (λ l. create os os.new_id (or_empty client) dir l s') (ap launch_args kept)
                ∙ create-started os os.new_id (or_empty client) dir launch s' started
                ∙ ap (λ x. (with_session os.new_id (or_empty client) dir launch s', ok x))
                    (sym named),
            named,
          )
      | inr (why, e) ↦ refused s why (rw (resume_start, e) refl) h
    ]

pub resume_start-ok :
    (os : Os) (spawns : SpawnSerde) (binary : Text) (work_dir client : Option Text) (dir : FilePath)
    (s s' : State) (a : Text)
    → resume_start os spawns binary work_dir client dir s ≡ (s', ok a)
    → (launch : Launch) × (s' ≡ with_session os.new_id (or_empty client) dir launch s)
      × (a ≡ os.new_id)
unfolding resume_start
resume_start-ok os spawns binary work_dir client dir s s' a h =
    elim (Result-cases (resume_dir os work_dir (args_in os spawns dir s))) [
      | inl (wd, e) ↦
          let launch = resumed os spawns binary dir wd s in
          let (after, named) =
            create-ok os os.new_id (or_empty client) dir launch s s' a
              (sym (resume_start-create os spawns binary work_dir client wd dir s e) ∙ h) in
          (launch, after, named)
      | inr (why, e) ↦ refused s why (rw (resume_start, e) refl) h
    ]
