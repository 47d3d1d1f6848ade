-- ===== src/Tests/PresetTests.antt =====
-- The preset commands on the presets of a first run, where the content of a preset is a number.
use alayaface.Prelude.{
  ℕ, zero, suc, ◌≡◌, refl, true, not, Option, none, some, List, [], ◌∷◌, ◌++◌, Text, codes, text_eq,
  Result, ok, err, holds, filter, IsDistinct,
}
use alayaface.Chars.{is_whitespace}
use alayaface.Dirs.Names.{valid_preset_name, seed_presets, is_seed_preset}
use alayaface.Presets.{State, Disk, names_of, seeds, preset_list, reorder_presets}
use alayaface.Presets.Wanted.{wanted}
use alayaface.Presets.Managed.{IsManaged}
use alayaface.Tests.ToySettings.{put}
use alayaface.Presets.Commands.{Command, copy, delete, run, run-IsManaged}
use alayaface.Presets.Reordered.{reorder_presets-listed}

abbrev fine : Result Text (Unit {0})
fine = ok tt

abbrev disk : Disk ℕ
disk = record {
  seeding = none;
  clone = λ c. (some c, fine);
  remove = λ c. (some c, err (codes "busy"));
  rename = fine;
  write = fine;
}

abbrev defaults : Text → ℕ
defaults n = 0

-- An order file: each name as ToySettings writes a text.
abbrev write_names : List Text → Text
write_names [] = []
write_names (n ∷ ns) = put n (write_names ns)

abbrev start_name : Option (List Text) → Option (List Text)
start_name none = none
start_name (some ns) = some ([] ∷ ns)

abbrev push_char : ℕ → Option (List Text) → Option (List Text)
push_char c none = none
push_char c (some []) = none
push_char c (some (n ∷ ns)) = some ((c ∷ n) ∷ ns)

abbrev read_names : Text → Option (List Text)
read_names [] = some []
read_names (zero ∷ rest) = start_name (read_names rest)
read_names (suc k ∷ []) = none
read_names (suc k ∷ c ∷ rest) = push_char c (read_names rest)

read_names-put :
    (n : Text) (rest : Text) (ns : List Text)
    → read_names rest ≡ some ns
    → read_names (put n rest) ≡ some (n ∷ ns)
read_names-put [] rest ns e = rw e refl
read_names-put (c ∷ cs) rest ns e = rw (read_names-put cs rest ns e) refl

read_names-write_names : (ns : List Text) → read_names (write_names ns) ≡ some ns
read_names-write_names [] = refl
read_names-write_names (n ∷ ns) = read_names-put n (write_names ns) ns (read_names-write_names ns)

-- the presets of a first run
abbrev first_run : State ℕ
first_run = record { presets = seeds defaults seed_presets; order_file = none }

only_seeds : (n : Text) → is_seed_preset n ≡ true → holds n seed_presets ≡ true
unfolding is_seed_preset holds
only_seeds n h = h

first_run-IsManaged : IsManaged seed_presets
unfolding valid_preset_name text_eq holds
first_run-IsManaged = record {
  distinct = (refl, (refl, (refl, tt)));
  valid = refl;
  seeded = only_seeds;
}

abbrev two_commands : List (Disk ℕ × Command)
two_commands = (disk, copy (codes "Talk") (codes "mine")) ∷ (disk, delete (codes "mine")) ∷ []

-- The copy is made and cannot be removed.
run-IsManaged_example :
    IsManaged (names_of (run defaults read_names write_names two_commands first_run).presets)
unfolding names_of seeds
run-IsManaged_example =
    run-IsManaged defaults read_names write_names two_commands first_run first_run-IsManaged

abbrev requested : List Text
requested = codes " Talk" ∷ codes "Gone" ∷ codes "Talk" ∷ []

abbrev sorted_seeds : List Text
sorted_seeds = codes "Complex" ∷ codes "Simple" ∷ codes "Talk" ∷ []

abbrev reordered : List Text
reordered = codes "Talk" ∷ codes "Complex" ∷ codes "Simple" ∷ []

abbrev pushed_first : List Text
pushed_first = wanted sorted_seeds [] requested

reorder_presets-listed_example :
    (preset_list defaults read_names write_names disk
        (record first_run { order_file = some (write_names reordered) })
      ≡ ok (pushed_first ++ filter (λ n. not (holds n pushed_first)) sorted_seeds))
    × IsDistinct (pushed_first ++ filter (λ n. not (holds n pushed_first)) sorted_seeds)
    × (holds (codes "Talk") (pushed_first ++ filter (λ n. not (holds n pushed_first)) sorted_seeds)
        ≡ holds (codes "Talk") sorted_seeds)
unfolding reorder_presets preset_list names_of seeds text_eq is_whitespace
reorder_presets-listed_example =
    reorder_presets-listed defaults read_names write_names disk requested first_run
      (record first_run { order_file = some (write_names reordered) }) sorted_seeds (codes "Talk")
      tt first_run-IsManaged read_names-write_names refl refl
