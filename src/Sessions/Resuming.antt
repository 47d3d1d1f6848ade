-- ===== src/Sessions/Resuming.antt =====
-- A session that is resumed is started as it was created.
use alayaface.Prelude.{
  same_ok, go_on-ok, ◌≡◌, refl, sym, ap, ◌∙◌, Bool, true, Option, none, some, [], ◌∷◌, Text, inl,
  inr, ok, Result-cases, refused, ok_of_bind,
}
use alayaface.Json.{Serde}
use alayaface.Dirs.Names.{safe_path_component}
use alayaface.Dirs.Paths.{FilePath, is_rooted, path_text}
use alayaface.Settings.{SettingsSerde}
use alayaface.Spawning.{SpawnSerde, Launch, read_spawn_args}
use alayaface.Sessions.{
  State, Os, Place, Overrides, given, or_empty, or_balanced, place_of, spawn_file,
}
use alayaface.Sessions.Starting.{
  Envelope, create, create_session_dir, make_dir, launch_in, config_dir, preset_fallback,
}
use alayaface.Sessions.Started.{with_session, create-started, resume_start-create, resumed}
use alayaface.Sessions.Placing.{create_session_dir-place_of}
use alayaface.Sessions.Racing.{check_dir-IsResumable}
use alayaface.Sessions.Kept.{envelope-kept, start_with-kept, spawn_file-persist, persist-launched}
use alayaface.Sessions.Commands.{
  check_dir, resume_check, resume_dir, resume_start, resume_session, args_in, start_with,
  preset_ready, create_session, config_of,
}

-- the directory of a new session, and the end of `create_session`
create_session-kept :
    (os : Os) (spawns : SpawnSerde) (serde : Serde) (files : SettingsSerde serde.Value)
    (binary config : Text) (o : Overrides) (preset : Option Text) (place : Place)
    (client : Option Text) (s s' : State) (id : Text)
    → create_session os spawns serde files binary config o preset place client s ≡ (s', ok id)
    → (mid : State) × (dir : FilePath) × (create_session_dir os place (or_empty preset) s
        ≡ (mid, ok dir))
      × (start_with os spawns binary
            (config_of config dir)
            (or_empty client)
            o
            (preset_fallback os serde files (or_empty preset))
            (or_empty preset)
            dir
            mid
          ≡ (s', ok id))
unfolding create_session
create_session-kept os spawns serde files binary config o preset place client s s' id h =
    elim (Result-cases (preset_ready os (or_empty preset))) [
      | inr (why, e) ↦ refused s why (rw (create_session, e) refl) h
      | inl (found, e) ↦
          go_on-ok
            (λ dir.
              start_with os spawns binary (config_of config dir) (or_empty client) o
                (preset_fallback os serde files (or_empty preset)) (or_empty preset) dir)
            (create_session_dir os place (or_empty preset) s) s' id
            (sym (rw (create_session, e) refl) ∙ h)
    ]

-- the same system later: another UUID, and other files
abbrev pub later : Os → Text → (FilePath → Bool) → (FilePath → Option Text) → Os
later os fresh exists file_bytes = record os {
  new_id = fresh;
  exists = exists;
  file_bytes = file_bytes;
}

same_launch :
    (os : Os) (spawns : SpawnSerde) (fresh : Text) (exists : FilePath → Bool)
    (file_bytes : FilePath → Option Text) (binary : Text) (dir : FilePath) (e : Envelope)
    (s : State)
    → args_in (later os fresh exists file_bytes) spawns dir s ≡ e.spawn_args
    → or_balanced e.spawn_args.reasoning_level ≡ e.level
    → resumed (later os fresh exists file_bytes) spawns binary dir e.child_dir s
      ≡ launch_in os binary (path_text (config_dir dir)) dir e
unfolding launch_in
same_launch os spawns fresh exists file_bytes binary dir e s kept level = rw (kept, level) refl

resumed-alike :
    (os : Os) (spawns : SpawnSerde) (fresh : Text) (exists : FilePath → Bool)
    (file_bytes : FilePath → Option Text) (binary : Text) (client : Option Text) (dir : FilePath)
    (e : Envelope) (s : State)
    → read_spawn_args spawns (spawn_file dir s.spawn_files) ≡ e.spawn_args
    → or_balanced e.spawn_args.reasoning_level ≡ e.level
    → resume_dir os none e.spawn_args ≡ ok e.child_dir
    → os.started (launch_in os binary (path_text (config_dir dir)) dir e) ≡ ok tt
    → resume_start (later os fresh exists file_bytes) spawns binary none client dir s ≡ (
      with_session fresh
          (or_empty client)
          dir
          (launch_in os binary (path_text (config_dir dir)) dir e)
          s,
      ok fresh,
    )
unfolding resume_dir make_dir launch_in
resumed-alike os spawns fresh exists file_bytes binary client dir e s kept level again started =
    let os' = later os fresh exists file_bytes in
    resume_start-create os' spawns binary none client e.child_dir dir s
      (ap (resume_dir os' none) kept ∙ again)
    ∙ ap (λ l. create os' fresh (or_empty client) dir l s)
        (same_launch os spawns fresh exists file_bytes binary dir e s kept level)
    ∙ create-started os' fresh (or_empty client) dir
        (launch_in os binary (path_text (config_dir dir)) dir e) s started

checked_place :
    (os : Os) (place : Place) (id : Text) (dir : FilePath) (s : State)
    → resume_check os place id s ≡ ok dir
    → place_of os.sessions_root place id ≡ ok dir
unfolding resume_check
checked_place os place id dir s h =
    let (d, at, checked) =
      ok_of_bind (place_of os.sessions_root place id) (λ d. check_dir os d s) h in
    at ∙ ap ok (check_dir-IsResumable os d dir s checked).0

-- Create, then resume: where a session was created in the client's default configuration and its spawn
-- arguments could be written, and its working directory, if it has one, is absolute, then it can be
-- resumed later from that file: by a request for its id and place, with the same path of the binary and
-- without a working directory of its own, that passes the checks, on a system that differs from that of the creation in
-- which paths exist, in what the files hold and in the new id alone (so the binary that is found, the PATH
-- and what can be started are those of the creation). Under these conditions it succeeds, and starts the
-- command that created the session, with the same arguments and in the same directory, whichever preset,
-- overrides and place the client chose, and whatever has become of the preset. The id of the session that
-- was created is a safe component, and the sessions directory is absolute.
pub resume_session-created :
    (os : Os) (spawns : SpawnSerde) (serde : Serde) (files : SettingsSerde serde.Value)
    (binary : Text) (o : Overrides) (preset : Option Text) (place : Place)
    (client client' : Option Text) (s s' s'' : State) (id fresh : Text) (exists : FilePath → Bool)
    (file_bytes : FilePath → Option Text) (dir : FilePath)
    → os.sessions_root.is_absolute ≡ true
    → safe_path_component os.new_id ≡ true
    → os.written ≡ ok tt
    → ((d : Text) → given o.work_dir ≡ some d → is_rooted d ≡ true)
    → create_session os spawns serde files binary [] o preset place client s ≡ (s', ok id)
    → resume_check (later os fresh exists file_bytes) place id s'' ≡ ok dir
    → spawn_file dir s''.spawn_files ≡ spawn_file dir s'.spawn_files
    → (launch : Launch) × (s'.launched ≡ launch ∷ s.launched)
      × (resume_session (later os fresh exists file_bytes) spawns id binary none place client' s''
          ≡ (with_session fresh (or_empty client') dir launch s'', ok fresh))
unfolding resume_session resume_check preset_fallback
resume_session-created os spawns serde files binary o preset place client client' s s' s'' id fresh
      exists file_bytes dir absolute safe written rooted h check same =
    let (mid, made, at, run) =
      create_session-kept os spawns serde files binary [] o preset place client s s' id h in
    let (placed, after) =
      create_session_dir-place_of os place (or_empty preset) s mid made absolute safe at in
    let f = preset_fallback os serde files (or_empty preset) in
    let (e, chosen, ended, named, started) =
      start_with-kept os spawns binary (config_of [] made) (or_empty client) o f (or_empty preset)
        made mid s' id written run in
    let (level, again, absolute_dir) =
      envelope-kept os o f (or_empty preset) e refl rooted chosen in
    let launch = launch_in os binary (config_of [] made) made e in
    let same_dir : made ≡ dir = same_ok made dir (
      sym placed
      ∙ ap (place_of os.sessions_root place) (sym named)
      ∙ checked_place (later os fresh exists file_bytes) place id dir s'' check) in
    let same' : spawn_file made s''.spawn_files ≡ spawn_file made s'.spawn_files =
      rw same_dir same in
    let kept : read_spawn_args spawns (spawn_file made s''.spawn_files) ≡ e.spawn_args =
      ap (read_spawn_args spawns) (same' ∙ ap (λ x. spawn_file made x.spawn_files) ended)
      ∙ spawn_file-persist os spawns made e.spawn_args mid written absolute_dir in
    let check' : resume_check (later os fresh exists file_bytes) place id s'' ≡ ok made =
      check ∙ ap ok (sym same_dir) in
    let run_again =
      resumed-alike os spawns fresh exists file_bytes binary client' made e s'' kept level again
        started in
    let launched : s'.launched ≡ launch ∷ s.launched =
      ap (λ x. x.launched) ended
      ∙ ap (◌∷◌ launch)
          (persist-launched os spawns made e.spawn_args mid written ∙ ap (λ x. x.launched) after) in
    (
      launch,
      launched,
      rw (resume_session, check') run_again
          ∙ ap (λ d. (with_session fresh (or_empty client') d launch s'', ok fresh)) same_dir,
    )
