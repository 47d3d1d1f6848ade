-- ===== src/Mcp/Lines.antt =====
-- The lines of `mcp.conf`: what `split_kv_line` and the loop of `parse_mcp_conf` of
-- src-tauri/src/commands/mcp.rs make of a line that `write_mcp_conf` wrote.
use alayaface.Prelude.{
  ℕ, ◌≡◌, refl, ap, ◌∙◌, Bool, true, false, not, ◌&&◌, ◌||◌, some, [], ◌∷◌, ◌++◌, Text, contains,
  text_eq, is_empty, any, any-append, ◌==◌, arith,
}
use alayaface.Chars.{is_whitespace, trim, trim_end, push_front}
use alayaface.Chars.Trimming.{IsTight, trim-space, trim-any, trim_start-plain, trim_end-append}
use alayaface.Versions.{rule}
use alayaface.Mcp.{split_colon, is_comment, split_kv_line, but_last, inside, unquote, key_line}

-- A key as the file has them.
abbrev pub is_key : Text → Bool
is_key [] = false
is_key (c ∷ cs) =
    (not (any is_whitespace (c ∷ cs)) && not (contains b':' (c ∷ cs)))
    && (not (c == b'#') && not (c == b'-'))

key_parts :
    (a b c d : Bool)
    → ((not a && not b) && (not c && not d)) ≡ true
    → (a ≡ false) × (b ≡ false) × (c ≡ false) × (d ≡ false)
key_parts a b c d h = (ground arith, ground arith, ground arith, ground arith)

is_key-whitespace : (key : Text) → is_key key ≡ true → any is_whitespace key ≡ false
is_key-whitespace [] h = refl
is_key-whitespace (c ∷ cs) h =
    (key_parts (any is_whitespace (c ∷ cs)) (contains b':' (c ∷ cs)) (c == b'#') (c == b'-') h).0

is_key-colon : (key : Text) → is_key key ≡ true → contains b':' key ≡ false
is_key-colon [] h = refl
is_key-colon (c ∷ cs) h =
    (key_parts (any is_whitespace (c ∷ cs)) (contains b':' (c ∷ cs)) (c == b'#') (c == b'-') h).1

split_colon-append :
    (key rest : Text)
    → contains b':' key ≡ false
    → split_colon (key ++ b':' ∷ rest) ≡ some (key, rest)
unfolding split_colon
split_colon-append [] rest h = refl
split_colon-append (c ∷ cs) rest h =
    let ne : (c == b':') ≡ false = ground arith in
    rw (ne, split_colon-append cs rest (ground arith)) refl

-- The value of a line, with the space before it.
tight_end : (t : Text) → IsTight t → trim_end is_whitespace (b':' ∷ b' ' ∷ t) ≡ b':' ∷ b' ' ∷ t
unfolding trim_end is_whitespace
tight_end [] h = let no : true ≡ false = h.0 in cc
tight_end (d ∷ ds) h =
    ap (λ r. push_front is_whitespace b':' (push_front is_whitespace b' ' r)) (h.2)

first_is_plain : (a b : Bool) → (a || b) ≡ false → a ≡ false
first_is_plain a b h = ground arith

trim-key_line :
    (key t : Text) → is_key key ≡ true → IsTight t → trim (key_line key t) ≡ key_line key t
unfolding trim
trim-key_line [] t h tight = cc
trim-key_line (c ∷ cs) t h tight =
    let plain : any is_whitespace (c ∷ cs) ≡ false = is_key-whitespace (c ∷ cs) h in
    ap (trim_end is_whitespace) (
      trim_start-plain is_whitespace c (cs ++ b':' ∷ b' ' ∷ t)
        (first_is_plain (is_whitespace c) (any is_whitespace cs) plain))
    ∙ trim_end-append is_whitespace (c ∷ cs) (b':' ∷ b' ' ∷ t) plain
    ∙ ap (◌++◌ (c ∷ cs)) (tight_end t tight)

no_rule : (key t : Text) → is_key key ≡ true → text_eq (key_line key t) rule ≡ false
unfolding text_eq
no_rule [] t h = cc
no_rule (c ∷ cs) t h =
    rw
      ((key_parts (any is_whitespace (c ∷ cs)) (contains b':' (c ∷ cs)) (c == b'#') (c == b'-')
        h).3)
      refl

pub key_line-rule :
    (key t : Text) → is_key key ≡ true → IsTight t → text_eq (trim (key_line key t)) rule ≡ false
key_line-rule key t h tight = rw (trim-key_line key t h tight) (no_rule key t h)

no_comment :
    (key t : Text)
    → is_key key ≡ true
    → (is_empty (key_line key t) || is_comment (key_line key t)) ≡ false
no_comment [] t h = cc
no_comment (c ∷ cs) t h =
    (key_parts (any is_whitespace (c ∷ cs)) (contains b':' (c ∷ cs)) (c == b'#') (c == b'-') h).2

-- A line with a key reads as its key and its value.
pub split_kv_line-key_line :
    (key t : Text) → is_key key ≡ true → IsTight t → split_kv_line (key_line key t) ≡ some (key, t)
unfolding split_kv_line
split_kv_line-key_line key t h tight =
    rw
      (
        trim-key_line key t h tight,
        no_comment key t h,
        split_colon-append key (b' ' ∷ t) (is_key-colon key h),
        trim-any key (is_key-whitespace key h),
        trim-space t tight,
      )
      refl

trim_end-snoc :
    (p : ℕ → Bool) (t : Text) (c : ℕ) → p c ≡ false → trim_end p (t ++ c ∷ []) ≡ t ++ c ∷ []
unfolding trim_end
trim_end-snoc p [] c h = rw h refl
trim_end-snoc p (x ∷ []) c h = rw h refl
trim_end-snoc p (x ∷ y ∷ ys) c h = ap (push_front p x) (trim_end-snoc p (y ∷ ys) c h)

abbrev pub quoted : Text → Text
quoted e = b'"' ∷ e ++ b'"' ∷ []

pub quoted-IsTight : (e : Text) → IsTight (quoted e)
unfolding is_whitespace
quoted-IsTight e = (
  refl,
  trim_start-plain is_whitespace b'"' (e ++ b'"' ∷ []) refl,
  trim_end-snoc is_whitespace (b'"' ∷ e) b'"' refl,
)

but_last-snoc : (e : Text) → but_last (e ++ b'"' ∷ []) ≡ some e
unfolding but_last
but_last-snoc [] = refl
but_last-snoc (c ∷ []) = refl
but_last-snoc (c ∷ d ∷ ds) = rw (but_last-snoc (d ∷ ds)) refl

pub unquote-quoted : (e : Text) → unquote (quoted e) ≡ e
unfolding unquote trim
unquote-quoted e =
    let (some_text, start, end) = quoted-IsTight e in
    ap inside (ap (trim_end is_whitespace) start ∙ end) ∙ rw (but_last-snoc e) refl

newline_is_space : (c : ℕ) → is_whitespace c ≡ false → (c == b'\n') ≡ false
unfolding is_whitespace
newline_is_space c h = ground arith

no_newline : (t : Text) → any is_whitespace t ≡ false → contains b'\n' t ≡ false
no_newline [] h = refl
no_newline (c ∷ cs) h = ground (arith, newline_is_space c, no_newline cs)

-- A line with a key is one line.
pub key_line-newline :
    (key t : Text)
    → is_key key ≡ true
    → contains b'\n' t ≡ false
    → contains b'\n' (key_line key t) ≡ false
key_line-newline key t h one_line =
    any-append (λ x. x == b'\n') key (b':' ∷ b' ' ∷ t)
    ∙ rw (no_newline key (is_key-whitespace key h)) one_line
