-- ===== src/Stderr.antt =====
-- `StderrTail` of src-tauri/src/alayacore.rs: the last lines that a core wrote to stderr; and
-- `disconnect_message` of src-tauri/src/reader.rs, which quotes them. Texts are code points, and
-- the mutex is never poisoned.
pub mod Window
use alayaface.Prelude.{
  ℕ, ◌+◌, ◌-◌, Bool, ◌||◌, Option, none, some, List, [], ◌∷◌, ◌++◌, Text, codes, length, take,
  is_empty, leb, ◌==◌, if◌then◌else◌, Result, ok, err,
}
use alayaface.Chars.{trim, trim_end, decimal}

abbrev pub stderr_tail_lines : ℕ
stderr_tail_lines = 20

abbrev pub stderr_tail_max_chars : ℕ
stderr_tail_max_chars = 400

abbrev pub is_line_end : ℕ → Bool
is_line_end c = c == b'\r' || c == b'\n'

-- oldest first
abbrev pub StderrTail : Type 0
StderrTail = List Text

-- `VecDeque::pop_front`
abbrev pub pop_front : StderrTail → StderrTail
pop_front [] = []
pop_front (line ∷ tail) = tail

unfoldable pub push : StderrTail → Text → StderrTail
push tail line =
    let trimmed = trim_end is_line_end line in
    if is_empty (trim trimmed)
    then tail
    else (if leb stderr_tail_lines (length tail) then pop_front tail else tail) ++ trimmed ∷ []

-- the loop of `spawn_stderr_pump`, over what `lines` yields: it ends at a line that cannot be read
unfoldable pub pump : StderrTail → List (Result Text Text) → StderrTail
unfolding push
pump tail [] = tail
pump tail (ok line ∷ rest) = pump (push tail line) rest
pump tail (err e ∷ rest) = tail

-- `lines.last()`
abbrev pub last : StderrTail → Option Text
last [] = none
last (line ∷ []) = some line
last (line ∷ next ∷ tail) = last (next ∷ tail)

unfoldable pub disconnect_message : Text → StderrTail → Text
disconnect_message base tail = elim (last tail) [
  | none ↦ base
  | some line ↦
      let quoted = base ++ codes ": " ++ take stderr_tail_max_chars line in
      if leb (length tail) 1
      then quoted
      else quoted
        ++ codes " (+"
        ++ decimal (length tail - 1)
        ++ codes " more stderr lines in the backend log)"
]
