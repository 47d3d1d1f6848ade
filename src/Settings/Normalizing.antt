-- ===== src/Settings/Normalizing.antt =====
-- The tool lists of src-tauri/src/commands/settings.rs after normalizing.
use alayaface.Prelude.{
  ◌≡◌, refl, ap, sym, ◌∙◌, subst, true, false, List, [], ◌∷◌, Text, all, contains, ok, ok_of_bind,
  IsDistinct, arith, and_left, and_right,
}
use alayaface.Chars.{split_on, trim}
use alayaface.Chars.Splitting.{split_on-none, split_on-append, split_on-all}
use alayaface.Settings.{tool_ids, join_with, normalize_tool_confirm}
use alayaface.Settings.ToolIds.{
  is_tool_id, IsFresh, tool_ids-IsFresh, tool_ids_id, IsFresh-IsDistinct,
}

no_comma : (id : Text) → is_tool_id id ≡ true → contains b',' id ≡ false
unfolding is_tool_id
no_comma id h = ground arith

split_on-join_with :
    (id : Text) (ids : List Text)
    → all is_tool_id (id ∷ ids) ≡ true
    → split_on b',' (join_with b',' (id ∷ ids)) ≡ id ∷ ids
unfolding join_with
split_on-join_with id [] h = split_on-none b',' id (no_comma id (and_left _ _ h))
split_on-join_with id (next ∷ ids) h =
    split_on-append b',' id (join_with b',' (next ∷ ids)) (no_comma id (and_left _ _ h))
    ∙ ap (◌∷◌ id) (split_on-join_with next ids (and_right _ _ h))

-- A joined list of distinct tool ids stays as it is.
normalize-join_with :
    (ids : List Text)
    → IsFresh [] ids
    → all is_tool_id ids ≡ true
    → normalize_tool_confirm (join_with b',' ids) ≡ ok (join_with b',' ids)
unfolding normalize_tool_confirm
normalize-join_with [] f h = unfold tool_ids split_on trim in refl
normalize-join_with (id ∷ ids) f h =
    rw (split_on-join_with id ids h, tool_ids_id [] (id ∷ ids) f h) refl

-- A normalized tool list is made of distinct ids, joined by commas, each not empty and without
-- whitespace or a comma; and it is normalized to itself.
pub normalize_tool_confirm-again :
    (raw list : Text)
    → normalize_tool_confirm raw ≡ ok list
    → ((ids : List Text) × (list ≡ join_with b',' ids)
        × IsDistinct ids
        × (all is_tool_id ids ≡ true))
      × (normalize_tool_confirm list ≡ ok list)
normalize_tool_confirm-again raw list h =
    let (ids, e, last) =
      ok_of_bind {b = list} (tool_ids [] (split_on b',' raw)) (λ l. ok (join_with b',' l))
        (unfold normalize_tool_confirm in h) in
    let (f, a) = tool_ids-IsFresh [] (split_on b',' raw) ids (split_on-all b',' raw) e in
    let same : join_with b',' ids ≡ list = cc last in
    (
      (ids, sym same, IsFresh-IsDistinct [] ids f, a),
      subst (λ l. normalize_tool_confirm l ≡ ok l) same (normalize-join_with ids f a),
    )
