-- ===== src/Dirs/Paths.antt =====
-- The paths of sessions: `session_path` of src-tauri/src/dirs.rs and what it calls, with
-- `std::path::Path` as its list of components on Unix. Two paths with the same components are equal.
use alayaface.Prelude.{
  Bool, true, false, not, ◌&&◌, ◌||◌, Option, none, some, List, [], ◌∷◌, ◌++◌, Text, codes, text_eq,
  contains, is_empty, ◌==◌, if◌then◌else◌, Result, ok, err,
}
use alayaface.Chars.{trim, split_on}
use alayaface.Dirs.Names.{sanitize_dir_component, safe_path_component}

pub record FilePath : Type 0 where
  pub is_absolute : Bool
  pub parts : List Text

-- `Path::components` drops empty components and `.`, but for a `.` at the start.
abbrev pub dot : Text
dot = codes "."

unfoldable pub normal_parts : List Text → List Text
normal_parts [] = []
normal_parts (w ∷ ws) =
    let rest = normal_parts ws in if is_empty w || text_eq w dot then rest else w ∷ rest

unfoldable pub leading_parts : List Text → List Text
unfolding normal_parts
leading_parts [] = []
leading_parts (w ∷ ws) = if text_eq w dot then w ∷ normal_parts ws else normal_parts (w ∷ ws)

abbrev pub is_rooted : Text → Bool
is_rooted [] = false
is_rooted (c ∷ cs) = c == b'/'

-- `PathBuf::from`
unfoldable pub parse_path : Text → FilePath
unfolding normal_parts leading_parts split_on
parse_path t = record {
  is_absolute = is_rooted t;
  parts = if is_rooted t then normal_parts (split_on b'/' t) else leading_parts (split_on b'/' t);
}

-- `Path::join`: an absolute path replaces the base
unfoldable pub join : FilePath → Text → FilePath
unfolding parse_path
join base t =
    if is_rooted t || (not base.is_absolute && is_empty base.parts)
    then parse_path t
    else record base { parts = base.parts ++ normal_parts (split_on b'/' t) }

unfoldable pub strip_parts : List Text → List Text → Option (List Text)
strip_parts [] ps = some ps
strip_parts (r ∷ rs) [] = none
strip_parts (r ∷ rs) (p ∷ ps) = let rest = strip_parts rs ps in if text_eq r p then rest else none

abbrev pub same_kind : Bool → Bool → Bool
same_kind true b = b
same_kind false b = not b

-- `path.strip_prefix(root)`
unfoldable pub strip_prefix : FilePath → FilePath → Option (List Text)
unfolding strip_parts
strip_prefix path root =
    if same_kind root.is_absolute path.is_absolute then strip_parts root.parts path.parts else none

unfoldable pub same_parts : List Text → List Text → Bool
same_parts [] [] = true
same_parts [] (q ∷ qs) = false
same_parts (p ∷ ps) [] = false
same_parts (p ∷ ps) (q ∷ qs) = text_eq p q && same_parts ps qs

-- `==` on paths
unfoldable pub path_eq : FilePath → FilePath → Bool
unfolding same_parts
path_eq p q = same_kind p.is_absolute q.is_absolute && same_parts p.parts q.parts

abbrev slashed : List Text → Text
slashed [] = []
slashed (w ∷ ws) = b'/' ∷ w ++ slashed ws

-- `Path::to_string_lossy`, of a path that is written as its components
unfoldable pub path_text : FilePath → Text
path_text path = elim path.parts [
  | [] ↦ if path.is_absolute then b'/' ∷ [] else []
  | w ∷ ws ↦ if path.is_absolute then slashed (w ∷ ws) else w ++ slashed ws
]

pub data PathError : Type 0 where
  invalid_session_id : Text → PathError
  escapes : FilePath → PathError

unfoldable pub resolve_origin_session_dir : FilePath → Text → FilePath
unfolding join parse_path trim
resolve_origin_session_dir root origin =
    let base = trim origin in
    if is_empty base
    then root
    else if not (contains b'/' base) && not (contains b'\\' base)
    then join root base
    else parse_path base

unfoldable pub contained_under : FilePath → FilePath → Result PathError FilePath
unfolding strip_prefix
contained_under root path = elim (strip_prefix path root) [
  | none ↦ err (escapes path)
  | some rel ↦ if is_empty rel then err (escapes path) else ok path
]

-- the directory of a plan node's session, before it is checked
unfoldable pub nested_path : FilePath → Text → Text → Text → Text → FilePath
unfolding resolve_origin_session_dir join sanitize_dir_component
nested_path root origin plan_id node_id session_id =
    join
      (join
        (join (join (resolve_origin_session_dir root origin) (codes "plans"))
          (sanitize_dir_component plan_id))
        (sanitize_dir_component node_id))
      session_id

unfoldable pub session_path : FilePath → Text → Text → Text → Text → Result PathError FilePath
unfolding safe_path_component join nested_path contained_under trim
session_path root origin plan_id node_id session_id =
    if not (safe_path_component session_id)
    then err (invalid_session_id session_id)
    else if is_empty (trim plan_id)
    then ok (join root session_id)
    else contained_under root (nested_path root origin plan_id node_id session_id)

-- the messages of the errors
abbrev pub path_message : PathError → Text
path_message (invalid_session_id id) = codes "Invalid session id: " ++ id
path_message (escapes path) =
    codes "Session path escapes the sessions directory: " ++ path_text path
