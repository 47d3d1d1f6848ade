-- ===== src/Tests/SessionTests.antt =====
-- Sessions that are created, resumed and closed, with the libraries of ToyJson, ToySettings and ToySpawn.
use mathlib.Core.List.{Perm}
use alayaface.Prelude.{
  ℕ, filter, ◌≡◌, refl, sym, ap, Bool, true, Option, none, some, List, [], ◌∷◌, Text, text_eq,
  codes, Result, ok, err, any, false, holds, arith,
}
use alayaface.Chars.{is_whitespace}
use alayaface.Dirs.Paths.{FilePath, is_rooted, path_eq}
use alayaface.Settings.{pos}
use alayaface.Spawning.{Launch}
use alayaface.Sessions.{
  SessionHandle, State, Os, Place, Overrides, is_active, spawn_file, given, get, close_each,
  close_all_sessions,
}
use alayaface.Sessions.Commands.{
  delete_session_dir, create_session, resume_check, resume_start, resume_session,
}
use alayaface.Sessions.Started.{with_session}
use alayaface.Sessions.Closing.{close_all_sessions-others, others}
use alayaface.Sessions.Starting.{Attempt, delete_loop}
use alayaface.Sessions.Deleting.{delete_loop-answer, delete_session_dir-resumed}
use alayaface.Sessions.Racing.{resume_session-raced}
use alayaface.Sessions.Resuming.{later, resume_session-created}
use alayaface.Sessions.Listing.{
  SessionEntry, SessionDirInfo, sort_entries, readable, is_session, info_of, list_session_dirs,
}
use alayaface.Sessions.Newest.{IsNewestFirst, infos, list_session_dirs-IsNewestFirst}
use alayaface.Tests.ToyJson.{toy_json}
use alayaface.Tests.ToySettings.{toy_settings}
use alayaface.Tests.ToySpawn.{toy_spawns}

abbrev path : List Text → FilePath
path parts = record { is_absolute = true; parts = parts }

abbrev everywhere : FilePath → Bool
everywhere p = true

abbrev nothing : FilePath → Option Text
nothing p = none

abbrev fine : Text → Result Text (Unit {0})
fine t = ok tt

abbrev starts : Launch → Result Text (Unit {0})
starts l = ok tt

abbrev os_of : Text → Os
os_of id = record {
  sessions_root = path (codes "sessions" ∷ []);
  presets_root = path (codes "presets" ∷ []);
  new_id = id;
  ensured = ok tt;
  exists = everywhere;
  settings_file = nothing;
  copied = ok tt;
  create_dir_all = fine;
  written = ok tt;
  found_binary = codes "alayacore";
  file_len = λ p. none;
  search_path = [];
  started = starts;
  file_bytes = nothing;
  from_utf8_lossy = λ bytes. bytes;
  fork_sent = fine;
  fork_written = ok tt;
}

abbrev top : Place
top = record { origin = none; plan_id = none; node_id = none }

abbrev session_at : Text → Text → Text × SessionHandle
session_at id owner =
    (id, record { session_dir = path (codes "sessions" ∷ id ∷ []); owner = owner })

abbrev running : State
running = record {
  sessions =
      session_at (codes "a") (codes "me")
      ∷ session_at (codes "b") (codes "you")
      ∷ session_at (codes "c") (codes "me")
      ∷ [];
  dirs = [];
  spawn_files = [];
  launched = [];
  announced = [];
}

abbrev left : State
left = record running { sessions = session_at (codes "b") (codes "you") ∷ [] }

abbrev backwards : List Text
backwards = codes "c" ∷ codes "a" ∷ []

same_ids :
    (id : Text)
    → holds id (codes "a" ∷ codes "b" ∷ codes "c" ∷ []) ≡ true
    → holds id backwards ≡ holds id (codes "a" ∷ codes "c" ∷ [])
unfolding holds
same_ids id h = ground arith

close_all_sessions-others_example :
    (close_all_sessions (some (codes "me")) running ≡ (left, ok tt))
    × (close_each backwards running ≡ left)
unfolding close_all_sessions close_each others holds text_eq
close_all_sessions-others_example =
    close_all_sessions-others (some (codes "me")) backwards running (refl, (refl, (refl, tt)))
      same_ids

abbrev created_dir : FilePath
created_dir = path (codes "sessions" ∷ codes "n" ∷ [])

abbrev on_disk : State
on_disk = record running { sessions = []; dirs = created_dir ∷ [] }

abbrev once : State
once =
    (resume_start (os_of (codes "x")) toy_spawns [] none (some (codes "me")) created_dir on_disk).0

abbrev alone : State
alone =
    (resume_start (os_of (codes "y")) toy_spawns [] none (some (codes "you")) created_dir on_disk).0

resume_session-raced_example :
    (resume_session (os_of (codes "y")) toy_spawns (codes "n") [] none top (some (codes "you")) once
      ≡ (once, err (codes "Session is already active")))
    × (s'' : State) × (resume_start
          (os_of (codes "y"))
          toy_spawns
          []
          none
          (some (codes "you"))
          created_dir
          once
        ≡ (s'', ok (codes "y")))
    × (get (codes "x") s''.sessions ≡ some record { session_dir = created_dir; owner = codes "me" })
    × (get (codes "y") s''.sessions
        ≡ some record { session_dir = created_dir; owner = codes "you" })
unfolding resume_session resume_start resume_check text_eq
resume_session-raced_example =
    resume_session-raced (os_of (codes "x")) (os_of (codes "y")) toy_spawns [] [] none none
      (some (codes "me")) (some (codes "you")) top top (codes "n") (codes "n") created_dir on_disk
      once alone (codes "x") (codes "y") refl refl refl refl refl

abbrev planner : Overrides
planner = record {
  tool_confirm = none;
  builtin_tools = some [];
  system_prompt = some (codes "plan");
  reasoning_level = some (pos 2);
  work_dir = some (codes "/w");
}

abbrev empty_disk : State
empty_disk = record on_disk { dirs = [] }

abbrev created : State
created =
    (create_session (os_of (codes "n")) toy_spawns toy_json toy_settings [] [] planner
      (some (codes "Simple")) top (some (codes "me")) empty_disk).0

abbrev closed : State
closed = record created { sessions = [] }

abbrev rooted_option : Option Text → Bool
rooted_option none = true
rooted_option (some d) = is_rooted d

planner_dir : (d : Text) → given planner.work_dir ≡ some d → is_rooted d ≡ true
unfolding given is_whitespace
planner_dir d h = sym (ap rooted_option h)

resume_session-created_example :
    (launch : Launch) × (created.launched ≡ launch ∷ [])
    × (resume_session
          (later (os_of (codes "n")) (codes "m") everywhere nothing)
          toy_spawns
          (codes "n")
          []
          none
          top
          (some (codes "me"))
          closed
        ≡ (with_session (codes "m") (codes "me") created_dir launch closed, ok (codes "m")))
unfolding create_session resume_session resume_check text_eq
resume_session-created_example =
    resume_session-created (os_of (codes "n")) toy_spawns toy_json toy_settings [] planner
      (some (codes "Simple")) top (some (codes "me")) (some (codes "me")) empty_disk created closed
      (codes "n") (codes "m") everywhere nothing created_dir refl refl refl planner_dir refl refl
      refl

-- The first removal meets a file that is still written; the second succeeds.
abbrev turns : List Attempt
turns =
    record { gone_before = false; remove_err = some (codes "not empty"); gone_after = false }
    ∷ record { gone_before = false; remove_err = none; gone_after = true }
    ∷ []

delete_loop-answer_example : delete_loop created_dir turns ≡ (true, ok tt)
delete_loop-answer_example = delete_loop-answer created_dir turns

delete_session_dir-resumed_example :
    (s' : State) × (delete_session_dir
        (path (codes "sessions" ∷ []))
        (λ d. turns)
        top
        (codes "n")
        once
      ≡ (s', ok tt))
    × (any (λ d. path_eq d created_dir) s'.dirs ≡ false)
    × (spawn_file created_dir s'.spawn_files ≡ none)
    × (s'.sessions ≡ once.sessions)
    × (is_active created_dir s'.sessions ≡ true)
unfolding delete_session_dir is_active text_eq resume_start get
delete_session_dir-resumed_example =
    delete_session_dir-resumed (path (codes "sessions" ∷ [])) (λ d. turns) top (codes "n") once
      created_dir refl refl refl refl

-- an entry of the sessions directory with a time
abbrev entry_of : Text → Bool → Option ℕ → SessionEntry
entry_of name has_session_file modified = record {
  file_name = name;
  is_dir = true;
  has_session_file = has_session_file;
  modified = modified;
  created = some 7;
  spawn_file = none;
  label_file = none;
}

abbrev dir_entries : List (Result Text SessionEntry)
dir_entries =
    ok (entry_of (codes "old") true (some 3))
    ∷ err (codes "gone")
    ∷ ok (entry_of (codes "plan") false (some 9))
    ∷ ok (entry_of (codes "unknown") true none)
    ∷ ok (entry_of (codes "new") true (some 8))
    ∷ []

abbrev no_label : Text → Option Text
no_label t = none

list_session_dirs-IsNewestFirst_example :
    (listed : List SessionEntry) × (list_session_dirs toy_spawns no_label (some (ok dir_entries))
      ≡ ok (infos toy_spawns no_label listed))
    × Perm listed (filter is_session (readable dir_entries))
    × IsNewestFirst listed
list_session_dirs-IsNewestFirst_example =
    list_session_dirs-IsNewestFirst toy_spawns no_label dir_entries

ids_of : List SessionDirInfo → List Text
ids_of [] = []
ids_of (i ∷ is) = i.id ∷ ids_of is

newest_first :
    ids_of (infos toy_spawns no_label (sort_entries (filter is_session (readable dir_entries))))
    ≡ codes "new" ∷ codes "old" ∷ codes "unknown" ∷ []
unfolding ids_of sort_entries readable info_of
newest_first = refl
