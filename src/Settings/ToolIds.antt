-- ===== src/Settings/ToolIds.antt =====
-- The ids that the loop of src-tauri/src/commands/settings.rs collects.
use alayaface.Prelude.{
  ◌≡◌, refl, ap, sym, ◌∙◌, subst, and_left, and_right, Bool, true, false, not, ◌&&◌, List, [], ◌∷◌,
  Text, text_eq, text_eq_refl, eq_of_text_eq, is_empty, any, all, contains, ok, ◌>>=◌, ok_of_bind,
  holds, IsDistinct, arith, Bool-cases, inl, inr,
}
use alayaface.Chars.{trim, is_whitespace}
use alayaface.Chars.Trimming.{trim-any}
use alayaface.Chars.Splitting.{contains-trim}
use alayaface.Settings.{tool_ids}

-- A tool id that `normalize_tool_confirm` keeps as it is.
unfoldable pub is_tool_id : Text → Bool
is_tool_id id = not (is_empty id) && not (any is_whitespace id) && not (contains b',' id)

-- Every id is new to those before it and to the set.
abbrev pub IsFresh : List Text → List Text → Type 0
IsFresh seen [] = Unit
IsFresh seen (id ∷ ids) = (holds id seen ≡ false) × IsFresh (id ∷ seen) ids

tool_ids_skip :
    (seen parts : List Text) (part : Text)
    → is_empty (trim part) ≡ true
    → tool_ids seen (part ∷ parts) ≡ tool_ids seen parts
unfolding tool_ids
tool_ids_skip seen parts part e = rw (tool_ids, e) refl

tool_ids_take :
    (seen parts : List Text) (part id : Text)
    → trim part ≡ id
    → is_empty id ≡ false
    → any is_whitespace id ≡ false
    → holds id seen ≡ false
    → tool_ids seen (part ∷ parts) ≡ (do ids ← tool_ids (id ∷ seen) parts; ok (id ∷ ids))
unfolding tool_ids
tool_ids_take seen parts part id t e w h = rw (tool_ids, t, e, w, h) refl

tool_ids_passed :
    (seen parts ids : List Text) (part : Text)
    → is_empty (trim part) ≡ false
    → tool_ids seen (part ∷ parts) ≡ ok ids
    → (any is_whitespace (trim part) ≡ false) × (holds (trim part) seen ≡ false)
unfolding tool_ids
tool_ids_passed seen parts ids part e h = elim (Bool-cases (any is_whitespace (trim part))) [
  | inl w ↦ ground arith
  | inr w ↦ elim (Bool-cases (holds (trim part) seen)) [ inl n ↦ ground arith | inr n ↦ (w, n) ]
]

is_tool_id_of :
    (id : Text)
    → is_empty id ≡ false
    → any is_whitespace id ≡ false
    → contains b',' id ≡ false
    → is_tool_id id ≡ true
unfolding is_tool_id
is_tool_id_of id e w c = rw (is_tool_id, e, w, c) refl

of_is_tool_id :
    (id : Text) → is_tool_id id ≡ true → (is_empty id ≡ false) × (any is_whitespace id ≡ false)
unfolding is_tool_id
of_is_tool_id id h = ground arith

pub tool_ids-IsFresh :
    (seen parts ids : List Text)
    → all (λ w. not (contains b',' w)) parts ≡ true
    → tool_ids seen parts ≡ ok ids
    → IsFresh seen ids × (all is_tool_id ids ≡ true)
tool_ids-IsFresh seen [] ids c h =
    let none_left : [] ≡ ids = unfold tool_ids in cc h in
    subst (λ l. IsFresh seen l × (all is_tool_id l ≡ true)) none_left (tt, refl)
tool_ids-IsFresh seen (part ∷ parts) ids c h = elim (Bool-cases (is_empty (trim part))) [
  | inl e ↦
      tool_ids-IsFresh seen parts ids (ground arith) (sym (tool_ids_skip seen parts part e) ∙ h)
  | inr e ↦
      let (w, n) = tool_ids_passed seen parts ids part e h in
      let (rest, r, last) =
        ok_of_bind {b = ids} (tool_ids (trim part ∷ seen) parts) (λ l. ok (trim part ∷ l))
          (sym (tool_ids_take seen parts part (trim part) refl e w n) ∙ h) in
      let (f, a) = tool_ids-IsFresh (trim part ∷ seen) parts rest (ground arith) r in
      let same : trim part ∷ rest ≡ ids = cc last in
      let plain : contains b',' (trim part) ≡ false = contains-trim b',' part (ground arith) in
      subst (λ l. IsFresh seen l × (all is_tool_id l ≡ true)) same
        ((n, f), rw (is_tool_id_of (trim part) e w plain) a)
]

-- Ids that are new and need no normalizing are collected as they are.
pub tool_ids_id :
    (seen ids : List Text)
    → IsFresh seen ids
    → all is_tool_id ids ≡ true
    → tool_ids seen ids ≡ ok ids
tool_ids_id seen [] f h = unfold tool_ids in refl
tool_ids_id seen (id ∷ ids) f h =
    let (e, w) = of_is_tool_id id (and_left _ _ h) in
    let again : tool_ids (id ∷ seen) ids ≡ ok ids =
      tool_ids_id (id ∷ seen) ids f.1 (and_right (is_tool_id id) (all is_tool_id ids) h) in
    tool_ids_take seen ids id id (trim-any id w) e w f.0 ∙ rw again refl

fresh-apart :
    (x : Text) (seen ids : List Text) → IsFresh seen ids → holds x seen ≡ true → holds x ids ≡ false
unfolding holds
fresh-apart x seen [] f h = refl
fresh-apart x seen (id ∷ ids) f h = elim (Bool-cases (text_eq x id)) [
  | inl e ↦
      let same : holds x seen ≡ holds id seen = ap (λ t. holds t seen) (eq_of_text_eq x id e) in
      let first = f.0 in ground arith
  | inr e ↦ rw e (fresh-apart x (id ∷ seen) ids f.1 (rw e h))
]

pub IsFresh-IsDistinct : (seen ids : List Text) → IsFresh seen ids → IsDistinct ids
unfolding holds
IsFresh-IsDistinct seen [] f = tt
IsFresh-IsDistinct seen (id ∷ ids) f = (
  fresh-apart id (id ∷ seen) ids f.1 (rw (text_eq_refl id) refl),
  IsFresh-IsDistinct (id ∷ seen) ids f.1,
)
