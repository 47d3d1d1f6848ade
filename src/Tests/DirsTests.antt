-- ===== src/Tests/DirsTests.antt =====
-- Names, paths and presets on concrete ones.
use alayaface.Prelude.{◌≡◌, refl, true, [], ◌∷◌, ◌++◌, text_eq, codes, ok}
use alayaface.Chars.{trim, is_whitespace}
use alayaface.Dirs.Names.{safe_path_component}
use alayaface.Dirs.Paths.{FilePath, session_path}
use alayaface.Dirs.Joining.{nested_parts}
use alayaface.Dirs.Containment.{IsBelow, session_path-IsBelow}
use alayaface.Dirs.Climbing.{resolved, is_up, session_path-climbs}

abbrev sessions : FilePath
sessions = record { is_absolute = true; parts = codes "home" ∷ codes "sessions" ∷ [] }

-- a plan node under the session `s1`, and the path of its session
abbrev node_path : FilePath
node_path = record {
  is_absolute = true;
  parts =
      codes "home"
      ∷ codes "sessions"
      ∷ codes "s1"
      ∷ codes "plans"
      ∷ codes "p_1"
      ∷ codes "n"
      ∷ codes "s2"
      ∷ [];
}

session_path-IsBelow_example : IsBelow sessions node_path
unfolding session_path text_eq is_whitespace
session_path-IsBelow_example =
    session_path-IsBelow sessions node_path (codes " s1") (codes "p.1") (codes "n") (codes "s2")
      refl refl

session_path-climbs_example :
    (path : FilePath) × (session_path sessions (codes "..") (codes "p") (codes "n") (codes "s2")
      ≡ ok path)
    × (resolved path.parts
        ≡ (codes "home" ∷ []) ++ nested_parts (codes "p") (codes "n") (codes "s2"))
unfolding safe_path_component trim is_up text_eq is_whitespace
session_path-climbs_example =
    session_path-climbs sessions (codes "home" ∷ []) (codes "sessions") (codes "p") (codes "n")
      (codes "s2") refl refl refl refl refl refl
