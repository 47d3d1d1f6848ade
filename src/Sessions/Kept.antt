-- ===== src/Sessions/Kept.antt =====
-- What a new session keeps on disk, and that it gives back.
use alayaface.Prelude.{
  same_ok, ◌≡◌, refl, sym, ap, ◌∙◌, true, false, not, ◌&&◌, Option, none, some, Option-cases, [],
  ◌∷◌, ◌++◌, Text, is_empty, inl, inr, ok, err, ◌>>=◌, Result-cases, refused, ok_of_bind, codes,
  if◌then◌else◌, arith,
}
use alayaface.Dirs.Paths.{FilePath, is_rooted}
use alayaface.Spawning.{SpawnArgs, SpawnSerde, read_spawn_args, write_spawn_args}
use alayaface.Sessions.{State, Os, Overrides, given, or_empty, or_balanced, spawn_file}
use alayaface.Sessions.Starting.{
  Fallback, Envelope, level_of, child_dir_of, envelope_of, create, make_dir, envelope, launch_in,
  persist, start,
}
use alayaface.Sessions.Started.{with_session, started-create, create-ok}
use alayaface.Sessions.Racing.{path_eq_refl}
use alayaface.Sessions.Commands.{resume_dir, start_with}

make_dir-ok : (os : Os) (d : Text) (dir : Option Text) → make_dir os d ≡ ok dir → dir ≡ some d
unfolding make_dir
make_dir-ok os d dir h = elim (Result-cases (os.create_dir_all d)) [
  | inl (done, e) ↦ same_ok dir (some d) (sym h ∙ rw (make_dir, e) refl)
  | inr (why, e) ↦
      let no : err (codes "Cannot create work dir " ++ d ++ codes ": " ++ why) ≡ ok dir =
        sym (rw (make_dir, e) refl) ∙ h in
      cc
]

nonempty-is_rooted : (d : Text) → is_rooted d ≡ true → is_empty d ≡ false
nonempty-is_rooted [] h = cc
nonempty-is_rooted (c ∷ cs) h = refl

-- A new session's working directory is made again when it is resumed.
dir_kept :
    (os : Os) (work_dir fallback dir : Option Text)
    → fallback ≡ none
    → ((d : Text) → given work_dir ≡ some d → is_rooted d ≡ true)
    → (elim (given work_dir) [ none ↦ ok fallback | some d ↦ make_dir os d ]) ≡ ok dir
    → ((if is_empty (or_empty dir) then ok none else make_dir os (or_empty dir)) ≡ ok dir)
      × ((not (is_empty (or_empty dir)) && not (is_rooted (or_empty dir))) ≡ false)
dir_kept os work_dir fallback dir none_left rooted h = elim (Option-cases (given work_dir)) [
  | inl e ↦
      let gone : none ≡ dir = sym none_left ∙ same_ok fallback dir (sym (rw e refl) ∙ h) in
      rw (sym gone) (refl, refl)
  | inr (d, e) ↦
      let made : make_dir os d ≡ ok dir = sym (rw e refl) ∙ h in
      let same : dir ≡ some d = make_dir-ok os d dir made in
      let absolute : is_rooted d ≡ true = rooted d e in
      rw same (rw (nonempty-is_rooted d absolute) (made ∙ ap ok same), rw absolute (ground arith))
]

-- What is kept of a new session, and what it gets when it is resumed.
pub envelope-kept :
    (os : Os) (o : Overrides) (f : Fallback) (preset : Text) (e : Envelope)
    → f.fallback_dir ≡ none
    → ((d : Text) → given o.work_dir ≡ some d → is_rooted d ≡ true)
    → envelope os o f preset ≡ ok e
    → (or_balanced e.spawn_args.reasoning_level ≡ e.level)
      × (resume_dir os none e.spawn_args ≡ ok e.child_dir)
      × ((not (is_empty e.spawn_args.work_dir) && not (is_rooted e.spawn_args.work_dir)) ≡ false)
unfolding envelope child_dir_of resume_dir given
envelope-kept os o f preset e none_left rooted h =
    let (level, chosen, h') =
      ok_of_bind (level_of o f)
        (λ level. (do dir ← child_dir_of os o f; ok (envelope_of o f preset level dir))) h in
    let (dir, made, h'') =
      ok_of_bind (child_dir_of os o f) (λ dir. ok (envelope_of o f preset level dir)) h' in
    let (again, absolute) = dir_kept os o.work_dir f.fallback_dir dir none_left rooted made in
    rw (sym (same_ok (envelope_of o f preset level dir) e h'')) (refl, again, absolute)

-- What a new session leaves, in a directory that was made for it.
pub start_with-kept :
    (os : Os) (spawns : SpawnSerde) (binary config owner : Text) (o : Overrides) (f : Fallback)
    (preset : Text) (dir : FilePath) (s s' : State) (id : Text)
    → os.written ≡ ok tt
    → start_with os spawns binary config owner o f preset dir s ≡ (s', ok id)
    → (e : Envelope) × (envelope os o f preset ≡ ok e)
      × (s'
          ≡ with_session os.new_id owner dir
              (launch_in os binary config dir e)
              (persist os spawns dir e.spawn_args s))
      × (id ≡ os.new_id)
      × (os.started (launch_in os binary config dir e) ≡ ok tt)
unfolding start_with start
start_with-kept os spawns binary config owner o f preset dir s s' id written h =
    elim (Result-cases (envelope os o f preset)) [
      | inr (why, e) ↦ refused s why (rw (start_with, e) refl) h
      | inl (e, found) ↦
          let launch = launch_in os binary config dir e in
          let before = persist os spawns dir e.spawn_args s in
          let made : create os os.new_id owner dir launch before ≡ (s', ok id) =
            sym (rw (start_with, found) refl) ∙ h in
          let (after, named) = create-ok os os.new_id owner dir launch before s' id made in
          (e, found, after, named, started-create os os.new_id owner dir launch before s' id made)
    ]

-- The file is the one that was written last.
pub spawn_file-persist :
    (os : Os) (spawns : SpawnSerde) (dir : FilePath) (a : SpawnArgs) (s : State)
    → os.written ≡ ok tt
    → (not (is_empty a.work_dir) && not (is_rooted a.work_dir)) ≡ false
    → read_spawn_args spawns (spawn_file dir (persist os spawns dir a s).spawn_files) ≡ a
unfolding persist write_spawn_args spawn_file read_spawn_args
spawn_file-persist os spawns dir a s written absolute =
    rw (persist, written, path_eq_refl dir, spawns.args_of-to_string_pretty a, absolute) refl

pub persist-launched :
    (os : Os) (spawns : SpawnSerde) (dir : FilePath) (a : SpawnArgs) (s : State)
    → os.written ≡ ok tt
    → (persist os spawns dir a s).launched ≡ s.launched
unfolding persist write_spawn_args
persist-launched os spawns dir a s written = rw (persist, written) refl
