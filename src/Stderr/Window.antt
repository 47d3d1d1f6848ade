-- ===== src/Stderr/Window.antt =====
-- The tail is the window of the last lines that carry a reason.
use alayaface.Prelude.{
  ℕ, ◌+◌, ◌-◌, ◌≤◌, ◌<◌, ◌≡◌, refl, ap, sym, ◌∙◌, subst, true, false, some, List, [], ◌∷◌, ◌++◌,
  append-nil, append_assoc, arith, Text, codes, length, length-append, take, is_empty, ltb, leb,
  Result, ok, err, ◌==◌, if◌then◌else◌, Bool-cases, inl, inr,
}
use alayaface.Chars.{trim, trim_end, decimal}
use alayaface.Stderr.{
  StderrTail, stderr_tail_lines, stderr_tail_max_chars, is_line_end, pop_front, push, pump, last,
  disconnect_message,
}

-- The lines that count, without their ends.
unfoldable pub reasons : List Text → List Text
reasons [] = []
reasons (line ∷ rest) =
    let trimmed = trim_end is_line_end line in
    if is_empty (trim trimmed) then reasons rest else trimmed ∷ reasons rest

-- The last `n` items.
unfoldable pub last_n {ℓ} : {A : Type ℓ} → ℕ → List A → List A
last_n n [] = []
last_n n (x ∷ xs) = if ltb n (length (x ∷ xs)) then last_n n xs else x ∷ xs

last_n_fits {ℓ} : {A : Type ℓ} (n : ℕ) (xs : List A) → length xs ≤ n → last_n n xs ≡ xs
unfolding last_n
last_n_fits n [] h = refl
last_n_fits n (x ∷ xs) h = ground arith

length-last_n-le {ℓ} : {A : Type ℓ} (n : ℕ) (xs : List A) → length (last_n n xs) ≤ n
unfolding last_n
length-last_n-le n [] = omega arith
length-last_n-le n (x ∷ xs) = ground (arith, length-last_n-le n xs)

-- Dropping the first of a full window and adding one behind is the window of one more.
last_n-snoc {ℓ} :
    {A : Type ℓ} (n : ℕ) (x y : A) (xs : List A)
    → length (x ∷ xs) ≡ n
    → last_n n ((x ∷ xs) ++ y ∷ []) ≡ xs ++ y ∷ []
unfolding last_n
last_n-snoc n x y xs h = ground (arith, length-append xs (y ∷ []), last_n_fits n (xs ++ y ∷ []))

-- Items that a window has dropped do not come back.
last_n-append {ℓ} :
    {A : Type ℓ} (n : ℕ) (xs ys : List A) → last_n n (last_n n xs ++ ys) ≡ last_n n (xs ++ ys)
unfolding last_n
last_n-append n [] ys = refl
last_n-append n (x ∷ xs) ys = elim (Bool-cases (ltb n (length (x ∷ xs)))) [
  | inl long ↦ rw long (last_n-append n xs ys ∙ ground (arith, length-append xs ys))
  | inr fits ↦ rw fits
]

-- A line that carries a reason moves the window by one.
moved :
    (tail : StderrTail) (line : Text)
    → length tail ≤ stderr_tail_lines
    → (if leb stderr_tail_lines (length tail) then pop_front tail else tail) ++ line ∷ []
      ≡ last_n stderr_tail_lines (tail ++ line ∷ [])
moved [] line h = sym (last_n_fits stderr_tail_lines (line ∷ []) (omega arith))
moved (x ∷ xs) line h = elim (Bool-cases (leb stderr_tail_lines (length (x ∷ xs)))) [
  | inl full ↦ rw full (sym (last_n-snoc stderr_tail_lines x line xs (ground arith)))
  | inr room ↦ rw room (
      sym (
        last_n_fits stderr_tail_lines ((x ∷ xs) ++ line ∷ [])
          (ground (arith, length-append (x ∷ xs) (line ∷ [])))))
]

push-last_n :
    (tail : StderrTail) (line : Text)
    → length tail ≤ stderr_tail_lines
    → push tail line ≡ last_n stderr_tail_lines (tail ++ reasons (line ∷ []))
unfolding push reasons
push-last_n tail line h = elim (Bool-cases (is_empty (trim (trim_end is_line_end line)))) [
  | inl blank ↦ rw (push, reasons, blank, append-nil) (sym (last_n_fits stderr_tail_lines tail h))
  | inr reason ↦ rw (push, reasons, reason) (moved tail (trim_end is_line_end line) h)
]

reasons_cons :
    (line : Text) (rest : List Text) → reasons (line ∷ rest) ≡ reasons (line ∷ []) ++ reasons rest
unfolding reasons
reasons_cons line rest = ground arith

-- The lines before the first that cannot be read.
abbrev pub readable : List (Result Text Text) → List Text
readable [] = []
readable (ok line ∷ rest) = line ∷ readable rest
readable (err e ∷ rest) = []

pump-last_n :
    (tail : StderrTail) (lines : List (Result Text Text))
    → length tail ≤ stderr_tail_lines
    → pump tail lines ≡ last_n stderr_tail_lines (tail ++ reasons (readable lines))
unfolding pump reasons
pump-last_n tail [] h = rw append-nil (sym (last_n_fits stderr_tail_lines tail h))
pump-last_n tail (err e ∷ rest) h = rw append-nil (sym (last_n_fits stderr_tail_lines tail h))
pump-last_n tail (ok line ∷ rest) h =
    let window = tail ++ reasons (line ∷ []) in
    let pushed = push-last_n tail line h in
    let bound =
      subst (λ t. length t ≤ stderr_tail_lines) (sym pushed)
        (length-last_n-le stderr_tail_lines window) in
    pump-last_n (push tail line) rest bound
    ∙ ap (λ t. last_n stderr_tail_lines (t ++ reasons (readable rest))) pushed
    ∙ last_n-append stderr_tail_lines window (reasons (readable rest))
    ∙ ap (last_n stderr_tail_lines) (
        append_assoc tail (reasons (line ∷ [])) (reasons (readable rest))
        ∙ ap (λ t. tail ++ t) (sym (reasons_cons line (readable rest))))

-- After any output of the core the tail holds, of the lines before the first that cannot be read, the last
-- ones that are not blank, at most 20 of them, oldest first and without their line ends.
pub pump-reasons :
    (lines : List (Result Text Text)) → pump [] lines ≡ last_n 20 (reasons (readable lines))
pump-reasons lines = pump-last_n [] lines (omega arith)

last-snoc : (xs : StderrTail) (line : Text) → last (xs ++ line ∷ []) ≡ some line
last-snoc [] line = refl
last-snoc (x ∷ []) line = refl
last-snoc (x ∷ y ∷ xs) line = last-snoc (y ∷ xs) line

last_n-last :
    (n : ℕ) (xs : StderrTail) (line : Text) → 0 < n → last (last_n n (xs ++ line ∷ [])) ≡ some line
unfolding last_n
last_n-last n [] line h = ground arith
last_n-last n (x ∷ xs) line h = elim (Bool-cases (ltb n (length ((x ∷ xs) ++ line ∷ [])))) [
  | inl long ↦ rw long (last_n-last n xs line h)
  | inr fits ↦ rw fits (last-snoc (x ∷ xs) line)
]

length-last_n {ℓ} :
    {A : Type ℓ} (n : ℕ) (xs : List A)
    → length (last_n n xs) ≡ (if ltb n (length xs) then n else length xs)
unfolding last_n
length-last_n n [] = ground arith
length-last_n n (x ∷ xs) = ground (arith, length-last_n n xs)

-- How many other lines the message speaks of: those that the window still holds.
abbrev pub others : List Text → ℕ
others before =
    if ltb (length before) stderr_tail_lines then length before else stderr_tail_lines - 1

message_of_window :
    (base line : Text) (tail : StderrTail) (n : ℕ)
    → last tail ≡ some line
    → length tail ≡ n + 1
    → disconnect_message base tail ≡ (
        if n == 0
        then base ++ codes ": " ++ take stderr_tail_max_chars line
        else base
          ++ codes ": "
          ++ take stderr_tail_max_chars line
          ++ codes " (+"
          ++ decimal n
          ++ codes " more stderr lines in the backend log)")
unfolding disconnect_message
message_of_window base line tail n e len =
    let less : length tail - 1 ≡ n = omega arith in
    elim (Bool-cases (n == 0)) [
      | inl one ↦
          let test : leb (length tail) 1 ≡ true = ground arith in
          rw (disconnect_message, e, test, one)
      | inr several ↦
          let test : leb (length tail) 1 ≡ false = ground arith in
          rw (disconnect_message, e, test, several, less)
    ]

-- The message for a core whose output ended with the reason `line` quotes that line, cut to the
-- limit of characters, and counts the lines before it, but never more of them than the tail keeps.
pub disconnect_message-pump :
    (base : Text) (lines : List (Result Text Text)) (before : List Text) (line : Text)
    → reasons (readable lines) ≡ before ++ line ∷ []
    → disconnect_message base (pump [] lines) ≡ (
        if others before == 0
        then base ++ codes ": " ++ take stderr_tail_max_chars line
        else base
          ++ codes ": "
          ++ take stderr_tail_max_chars line
          ++ codes " (+"
          ++ decimal (others before)
          ++ codes " more stderr lines in the backend log)")
disconnect_message-pump base lines before line e =
    let window = pump-reasons lines ∙ ap (last_n stderr_tail_lines) e in
    ap (disconnect_message base) window
    ∙ message_of_window base line (last_n stderr_tail_lines (before ++ line ∷ [])) (others before)
        (last_n-last stderr_tail_lines before line (omega arith))
        (ground (
          arith,
          length-last_n stderr_tail_lines (before ++ line ∷ []),
          length-append before (line ∷ []),
        ))

-- A core that wrote nothing but blank lines leaves the message as it is.
pub disconnect_message_silent :
    (base : Text) (lines : List (Result Text Text))
    → reasons (readable lines) ≡ []
    → disconnect_message base (pump [] lines) ≡ base
unfolding disconnect_message last_n
disconnect_message_silent base lines e = rw (pump-reasons lines, e)
