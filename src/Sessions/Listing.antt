-- ===== src/Sessions/Listing.antt =====
-- The directories of sessions, newest first: `list_session_dirs` of src-tauri/src/commands/sessions.rs.
use alayaface.Prelude.{
  ℕ, Bool, true, false, ◌&&◌, Option, none, some, List, [], ◌∷◌, ◌++◌, Text, codes, leb,
  if◌then◌else◌, Result, ok, err,
}
use alayaface.Chars.{decimal}
use alayaface.Label.{read_session_label}
use alayaface.Spawning.{SpawnSerde, read_spawn_args}

-- An entry of the sessions directory, with what the file system says of it: the time of its last change,
-- in the smallest unit that the system keeps, that of its creation in seconds, and the texts of two files
-- in it.
pub record SessionEntry : Type 0 where
  pub file_name : Text
  pub is_dir : Bool
  pub has_session_file : Bool
  pub modified : Option ℕ
  pub created : Option ℕ
  pub spawn_file : Option Text
  pub label_file : Option Text

pub record SessionDirInfo : Type 0 where
  pub id : Text
  pub created_at : Text
  pub preset : Text
  pub label : Text

-- `Reverse` of the optional times, as `sort_by_key` compares them: an entry without a time is last.
unfoldable pub not_older : Option ℕ → Option ℕ → Bool
not_older a none = true
not_older none (some n) = false
not_older (some m) (some n) = leb n m

unfoldable pub insert_entry : SessionEntry → List SessionEntry → List SessionEntry
unfolding not_older
insert_entry e [] = e ∷ []
insert_entry e (x ∷ xs) =
    let rest = insert_entry e xs in
    if not_older (e.modified) (x.modified) then e ∷ x ∷ xs else x ∷ rest

-- a stable sort
unfoldable pub sort_entries : List SessionEntry → List SessionEntry
unfolding insert_entry
sort_entries [] = []
sort_entries (e ∷ es) = insert_entry e (sort_entries es)

-- The entries that can be read.
unfoldable pub readable : List (Result Text SessionEntry) → List SessionEntry
readable [] = []
readable (err why ∷ entries) = readable entries
readable (ok e ∷ entries) = e ∷ readable entries

abbrev pub is_session : SessionEntry → Bool
is_session e = e.is_dir && e.has_session_file

abbrev seconds : Option ℕ → Text
seconds none = codes "0"
seconds (some n) = decimal n

module _ (serde : SpawnSerde) (label_doc : Text → Option Text) where
  unfoldable pub info_of : SessionEntry → SessionDirInfo
  unfolding decimal read_spawn_args read_session_label
  info_of e = record {
    id = e.file_name;
    created_at = seconds (e.created);
    preset = (read_spawn_args serde (e.spawn_file)).preset;
    label = read_session_label label_doc (e.label_file);
  }

  unfoldable pub list_entries : List SessionEntry → List SessionDirInfo
  unfolding info_of
  list_entries [] = []
  list_entries (e ∷ es) =
      let rest = list_entries es in if is_session e then info_of e ∷ rest else rest

  -- The directory is `none` if it does not exist, and an error if it cannot be read.
  unfoldable pub list_session_dirs :
      Option (Result Text (List (Result Text SessionEntry))) → Result Text (List SessionDirInfo)
  unfolding list_entries sort_entries readable
  list_session_dirs none = ok []
  list_session_dirs (some (err why)) = err (codes "Cannot read sessions dir: " ++ why)
  list_session_dirs (some (ok entries)) = ok (list_entries (sort_entries (readable entries)))
