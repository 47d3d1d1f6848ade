-- ===== src/Versions/Headers.antt =====
-- What `session_file_rejection` of src-tauri/src/alayacore.rs finds in a header.
use alayaface.Prelude.{
  suc, take, codes, ◌≡◌, refl, ap, ◌∙◌, Bool, true, false, not, ◌&&◌, Option, none, some, List, [],
  ◌∷◌, ◌++◌, Text, contains, text_eq, all, ◌==◌, inl, inr, if◌then◌else◌, arith, append_assoc,
  ==_refl, Option-cases,
}
use alayaface.Chars.{decimal, trim, trim_end, push_front, is_whitespace}
use alayaface.Chars.Trimming.{push_front-plain, trim_end-append}
use alayaface.Settings.{ℤ, pos, negsuc}
use alayaface.Versions.{
  shown, is_supported, lines, is_return, rule, version_key, strip_key, parse_i64, header_version,
  session_file_message_version, session_version_rejection, session_file_rejection,
}

abbrev pub is_none : Option Text → Bool
is_none none = true
is_none (some t) = false

-- A line of a header which is not the rule that ends it, and has another key than the version's.
abbrev pub is_other : Text → Bool
is_other l =
    not (contains b'\n' l)
    && not (text_eq (trim (trim_end is_return l)) rule)
    && is_none (strip_key version_key (trim_end is_return l))

-- lines, each with its end
abbrev pub written : List Text → Text
written [] = []
written (l ∷ ls) = l ++ b'\n' ∷ written ls

split_other :
    (a b c d : Bool)
    → ((not a && not b && c) && d) ≡ true
    → (a ≡ false) × (b ≡ false) × (c ≡ true) × (d ≡ true)
split_other a b c d h = (ground arith, ground arith, ground arith, ground arith)

none_of_test : (o : Option Text) → is_none o ≡ true → o ≡ none
none_of_test none h = refl
none_of_test (some t) h = cc

pub lines-append :
    (l rest : Text) → contains b'\n' l ≡ false → lines (l ++ b'\n' ∷ rest) ≡ l ∷ lines rest
unfolding lines
lines-append [] rest h = refl
lines-append (c ∷ cs) rest h =
    let ne : (c == b'\n') ≡ false = ground arith in
    rw (ne, lines-append cs rest (ground arith)) refl

lines-written :
    (before : List Text) (rest : Text)
    → all is_other before ≡ true
    → lines (written before ++ rest) ≡ before ++ lines rest
lines-written [] rest h = refl
lines-written (l ∷ before) rest h =
    let (one_line, no_rule, no_key, others) =
      split_other (contains b'\n' l) (text_eq (trim (trim_end is_return l)) rule)
        (is_none (strip_key version_key (trim_end is_return l))) (all is_other before) h in
    ap lines (append_assoc l (b'\n' ∷ written before) rest)
    ∙ lines-append l (written before ++ rest) one_line
    ∙ ap (◌∷◌ l) (lines-written before rest others)

header_version-append :
    (before ls : List Text)
    → all is_other before ≡ true
    → header_version (before ++ ls) ≡ header_version ls
unfolding header_version
header_version-append [] ls h = refl
header_version-append (l ∷ before) ls h =
    let (one_line, no_rule, no_key, others) =
      split_other (contains b'\n' l) (text_eq (trim (trim_end is_return l)) rule)
        (is_none (strip_key version_key (trim_end is_return l))) (all is_other before) h in
    rw (no_rule, none_of_test (strip_key version_key (trim_end is_return l)) no_key)
      (header_version-append before ls others)

strip_key-append : (key t : Text) → strip_key key (key ++ t) ≡ some t
unfolding strip_key
strip_key-append [] t = refl
strip_key-append (k ∷ ks) t = rw (==_refl k, strip_key-append ks t) refl

m_line : (t : Text) → text_eq (push_front is_whitespace b'm' t) rule ≡ false
unfolding text_eq is_whitespace
m_line t = rw (push_front-plain is_whitespace b'm' t refl) refl

-- The line of the version is not the rule.
version_line : (t : Text) → text_eq (trim (version_key ++ t)) rule ≡ false
unfolding trim text_eq is_whitespace
version_line t = m_line _

header_version-key :
    (value : Text) (ls : List Text)
    → header_version ((version_key ++ value) ∷ ls) ≡ parse_i64 (trim (trim_end is_return value))
unfolding header_version strip_key
header_version-key value ls =
    rw (trim_end-append is_return version_key value refl, version_line (trim_end is_return value))
      refl

-- What a session file with another version is answered.
abbrev pub refusal : Text → Text → Option Text
refusal name version = some (
    codes "Session file "
    ++ name
    ++ codes " is alayacore protocol v"
    ++ version
    ++ codes "; this AlayaFace and the alayacore it bundles speak v"
    ++ codes "17"
    ++ codes " and will not load it (the file was not modified)")

-- The answer to a version that a header gives, or does not.
abbrev pub verdict : Text → Option ℤ → Option Text
verdict name none = none
verdict name (some (pos n)) = if n == 17 then none else refusal name (decimal n)
verdict name (some (negsuc n)) = refusal name (b'-' ∷ decimal (suc n))

seventeen : decimal 17 ≡ codes "17"
unfolding decimal
seventeen = refl

refusal-message :
    (name : Text) (found : ℤ)
    → some (session_version_rejection name found) ≡ refusal name (shown found)
unfolding session_version_rejection
refusal-message name found =
    ap
      (λ speaks. some (
        codes "Session file "
        ++ name
        ++ codes " is alayacore protocol v"
        ++ shown found
        ++ codes "; this AlayaFace and the alayacore it bundles speak v"
        ++ speaks
        ++ codes " and will not load it (the file was not modified)"))
      seventeen

unless : {A : Type 0} (b : Bool) (x y : A) → (if not b then x else y) ≡ (if b then y else x)
unless true x y = refl
unless false x y = refl

verdict-some :
    (name : Text) (found : ℤ)
    → (if not (is_supported found) then some (session_version_rejection name found) else none)
      ≡ verdict name (some found)
unfolding is_supported
verdict-some name (pos n) =
    unless (n == 17) (some (session_version_rejection name (pos n))) none
    ∙ ap (λ o. if n == 17 then none else o) (refusal-message name (pos n))
verdict-some name (negsuc n) = refusal-message name (negsuc n)

rejection-verdict :
    (from_utf8_lossy : Text → Text) (file : Option Text) (name : Text)
    → session_file_rejection from_utf8_lossy file name
      ≡ verdict name (session_file_message_version from_utf8_lossy file)
unfolding session_file_rejection
rejection-verdict from_utf8_lossy file name =
    elim (Option-cases (session_file_message_version from_utf8_lossy file)) [
      | inl e ↦ rw (session_file_rejection, e) refl
      | inr (found, e) ↦ rw (session_file_rejection, e) (verdict-some name found)
    ]

message_version-lines :
    (from_utf8_lossy : Text → Text) (file head : Text) (ls : List Text)
    → from_utf8_lossy (take 4096 file) ≡ head
    → lines head ≡ rule ∷ ls
    → session_file_message_version from_utf8_lossy (some file) ≡ header_version ls
unfolding session_file_message_version trim_end text_eq
message_version-lines from_utf8_lossy file head ls window e =
    rw (session_file_message_version, window, e) refl

message_version-header :
    (from_utf8_lossy : Text → Text) (file : Text) (before : List Text) (value rest : Text)
    → from_utf8_lossy (take 4096 file)
      ≡ rule ++ b'\n' ∷ (written before ++ ((version_key ++ value) ++ b'\n' ∷ rest))
    → all is_other before ≡ true
    → contains b'\n' value ≡ false
    → session_file_message_version from_utf8_lossy (some file)
      ≡ parse_i64 (trim (trim_end is_return value))
message_version-header from_utf8_lossy file before value rest window others one_line =
    let body = (version_key ++ value) ++ b'\n' ∷ rest in
    let split : lines (rule ++ b'\n' ∷ (written before ++ body))
        ≡ rule ∷ (before ++ ((version_key ++ value) ∷ lines rest)) =
      lines-append rule (written before ++ body) refl
      ∙ ap (◌∷◌ rule) (
          lines-written before body others
          ∙ ap (◌++◌ before) (lines-append (version_key ++ value) rest one_line)) in
    message_version-lines from_utf8_lossy file (rule ++ b'\n' ∷ (written before ++ body))
      (before ++ ((version_key ++ value) ∷ lines rest)) window split
    ∙ header_version-append before ((version_key ++ value) ∷ lines rest) others
    ∙ header_version-key value (lines rest)

-- The first 4096 bytes of a session file decode to a rule, lines with other keys, the line of the version
-- and whatever follows that. The file is rejected exactly if the version is an `i64` other than 17, and the
-- message names the file, its version and 17: no other key, no carriage return at the end of a line, and no
-- space around the version changes that.
pub session_file_rejection-header :
    (from_utf8_lossy : Text → Text) (file : Text) (before : List Text) (value rest name : Text)
    → from_utf8_lossy (take 4096 file)
      ≡ rule ++ b'\n' ∷ (written before ++ ((version_key ++ value) ++ b'\n' ∷ rest))
    → all is_other before ≡ true
    → contains b'\n' value ≡ false
    → session_file_rejection from_utf8_lossy (some file) name
      ≡ verdict name (parse_i64 (trim (trim_end is_return value)))
unfolding session_file_rejection session_file_message_version
session_file_rejection-header from_utf8_lossy file before value rest name window others one_line =
    rejection-verdict from_utf8_lossy (some file) name
    ∙ ap (verdict name)
        (message_version-header from_utf8_lossy file before value rest window others one_line)
