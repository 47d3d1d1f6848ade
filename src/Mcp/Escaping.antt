-- ===== src/Mcp/Escaping.antt =====
-- `html_escape` of src-tauri/src/commands/mcp.rs: the four passes are one, and nothing of a name is read
-- as markup.
use alayaface.Prelude.{
  ℕ, ◌≡◌, refl, sym, ap, ◌∙◌, Bool, true, false, [], ◌∷◌, ◌++◌, Text, codes, any, any-append, ◌==◌,
  ◌||◌, if◌then◌else◌, arith, inl, inr, Bool-cases, append_assoc, append-nil,
}
use alayaface.Mcp.Authorizing.{replace, html_escape}

-- What stands for a character.
abbrev pub escape_char : ℕ → Text
escape_char c =
    if c == b'&'
    then codes "&amp;"
    else if c == b'<'
    then codes "&lt;"
    else if c == b'>'
    then codes "&gt;"
    else if c == b'"'
    then codes "&quot;"
    else c ∷ []

-- One pass over the text.
abbrev pub escape_each : Text → Text
escape_each [] = []
escape_each (c ∷ cs) = escape_char c ++ escape_each cs

replace-append :
    (c : ℕ) (by xs ys : Text) → replace c by (xs ++ ys) ≡ replace c by xs ++ replace c by ys
unfolding replace
replace-append c by [] ys = refl
replace-append c by (x ∷ xs) ys =
    ap (◌++◌ (if x == c then by else x ∷ [])) (replace-append c by xs ys)
    ∙ sym (append_assoc (if x == c then by else x ∷ []) (replace c by xs) (replace c by ys))

html_escape-append : (xs ys : Text) → html_escape (xs ++ ys) ≡ html_escape xs ++ html_escape ys
unfolding html_escape
html_escape-append xs ys =
    rw
      (
        replace-append b'&' (codes "&amp;") xs ys,
        replace-append b'<' (codes "&lt;") (replace b'&' (codes "&amp;") xs)
            (replace b'&' (codes "&amp;") ys),
        replace-append b'>' (codes "&gt;")
            (replace b'<' (codes "&lt;") (replace b'&' (codes "&amp;") xs))
            (replace b'<' (codes "&lt;") (replace b'&' (codes "&amp;") ys)),
        replace-append b'"' (codes "&quot;")
            (replace b'>' (codes "&gt;")
              (replace b'<' (codes "&lt;") (replace b'&' (codes "&amp;") xs)))
            (replace b'>' (codes "&gt;")
              (replace b'<' (codes "&lt;") (replace b'&' (codes "&amp;") ys))),
      )
      refl

eq_of_== : (a b : ℕ) → (a == b) ≡ true → a ≡ b
eq_of_== a b h = ground arith

html_escape-char : (c : ℕ) → html_escape (c ∷ []) ≡ escape_char c
unfolding html_escape replace
html_escape-char c = elim (Bool-cases (c == b'&')) [
  | inl amp ↦ rw (eq_of_== c b'&' amp) refl
  | inr amp ↦ elim (Bool-cases (c == b'<')) [
    | inl less ↦ rw (eq_of_== c b'<' less) refl
    | inr less ↦ elim (Bool-cases (c == b'>')) [
      | inl more ↦ rw (eq_of_== c b'>' more) refl
      | inr more ↦ rw (amp, less, more) (append-nil _)
    ]
  ]
]

passes_are_one : (s : Text) → html_escape s ≡ escape_each s
unfolding html_escape replace
passes_are_one [] = refl
passes_are_one (c ∷ cs) =
    html_escape-append (c ∷ []) cs
    ∙ rw (html_escape-char c) (ap (◌++◌ (escape_char c)) (passes_are_one cs))

-- A character that markup is made of.
abbrev pub is_markup : ℕ → Bool
is_markup c = c == b'<' || (c == b'>' || c == b'"')

escape_char-markup : (c : ℕ) → any is_markup (escape_char c) ≡ false
escape_char-markup c = elim (Bool-cases (c == b'&')) [
  | inl amp ↦ rw amp refl
  | inr amp ↦ elim (Bool-cases (c == b'<')) [
    | inl less ↦ rw (amp, less) refl
    | inr less ↦ elim (Bool-cases (c == b'>')) [
      | inl more ↦ rw (amp, less, more) refl
      | inr more ↦ elim (Bool-cases (c == b'"')) [
        | inl quote ↦ rw (amp, less, more, quote) refl
        | inr quote ↦ rw (amp, less, more, quote) (rw (less, more, quote) refl)
      ]
    ]
  ]
]

escape_each-markup : (s : Text) → any is_markup (escape_each s) ≡ false
escape_each-markup [] = refl
escape_each-markup (c ∷ cs) =
    any-append is_markup (escape_char c) (escape_each cs)
    ∙ rw (escape_char-markup c) (escape_each-markup cs)

-- The four passes are one pass that replaces each character on its own: the ampersands that the later
-- passes write are not escaped again. What is escaped has no angle bracket and no quote.
pub html_escape-escape_each :
    (s : Text) → (html_escape s ≡ escape_each s) × (any is_markup (html_escape s) ≡ false)
html_escape-escape_each s = (passes_are_one s, rw (passes_are_one s) (escape_each-markup s))
