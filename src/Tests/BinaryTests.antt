-- ===== src/Tests/BinaryTests.antt =====
-- An empty stub next to the program, and a binary that the environment names.
use alayaface.Prelude.{◌≡◌, refl, true, none, some, [], ◌∷◌, codes}
use alayaface.Binary.{System, find_binary}

abbrev stub : System
stub = record {
  current_exe = some record { is_absolute = true; parts = codes "opt" ∷ codes "alayaface" ∷ [] };
  file_len = λ path. some 0;
  env_bin = some (codes "/bin/core");
  exists = λ path. true;
  which = none;
}

found : find_binary stub ≡ codes "/bin/core"
unfolding find_binary
found = refl
