-- ===== src/Presets/Arranged.antt =====
-- The names that `reorder_presets` of src-tauri/src/commands/presets.rs writes: those that its first
-- loop pushes, and behind them the others.
use alayaface.Prelude.{
  ◌≡◌, refl, ap, sym, ◌∙◌, Bool, true, not, ◌&&◌, List, [], ◌∷◌, ◌++◌, Text, text_eq, eq_of_text_eq,
  all, holds, filter, filter-agree, holds-append, holds-filter, IsDistinct, IsDistinct-append,
  IsDistinct-filter, Bool-cases, arith, inl, inr,
}
use alayaface.Dirs.Presets.{push_new}
use alayaface.Dirs.Order.{push_new-holds, push_new-seen, push_new-IsDistinct}
use alayaface.Presets.{trimmed, ordered_of}

pub all-holds :
    (p : Text → Bool) (id : Text) (xs : List Text)
    → all p xs ≡ true
    → holds id xs ≡ true
    → p id ≡ true
unfolding holds
all-holds p id [] h e = cc
all-holds p id (x ∷ xs) h e = elim (Bool-cases (text_eq id x)) [
  | inl same ↦ ap p (eq_of_text_eq id x same) ∙ ground arith
  | inr other ↦ all-holds p id xs (ground arith) (ground arith)
]

module _ (existing raw : List Text) where
  unfoldable pub pushed : List Text × List Text
  pushed = push_new (λ n. holds n existing) [] raw

  pub seen-pushed : (id : Text) → holds id pushed.1 ≡ (holds id raw && holds id existing)
  unfolding pushed holds
  seen-pushed id =
      push_new-seen (λ n. holds n existing) id [] raw
      ∙ push_new-holds (λ n. holds n existing) id [] raw
      ∙ ground arith

  pub out-pushed : (id : Text) → holds id pushed.0 ≡ (holds id raw && holds id existing)
  unfolding pushed holds
  out-pushed id = push_new-holds (λ n. holds n existing) id [] raw ∙ ground arith

  unfoldable pub arranged : List Text
  unfolding pushed
  arranged = pushed.0 ++ filter (λ n. not (holds n pushed.1)) existing

  pub arranged-holds : (id : Text) → holds id arranged ≡ holds id existing
  unfolding arranged
  arranged-holds id =
      holds-append id pushed.0 (filter (λ n. not (holds n pushed.1)) existing)
      ∙ rw (out-pushed id, holds-filter (λ n. not (holds n pushed.1)) id existing, seen-pushed id)
          (ground arith)

  pub arranged-IsDistinct : IsDistinct existing → IsDistinct arranged
  unfolding arranged
  arranged-IsDistinct d =
      IsDistinct-append pushed.0 (filter (λ n. not (holds n pushed.1)) existing)
        (unfold pushed in push_new-IsDistinct (λ n. holds n existing) [] raw)
        (IsDistinct-filter (λ n. not (holds n pushed.1)) existing d)
        (λ id stands.
          holds-filter (λ n. not (holds n pushed.1)) id existing
          ∙ rw (seen-pushed id, sym (out-pushed id), stands) (ground arith))

  -- The set of the loop holds what the loop pushed.
  pub arranged_by_out : arranged ≡ pushed.0 ++ filter (λ n. not (holds n pushed.0)) existing
  unfolding arranged
  arranged_by_out =
      ap (λ l. pushed.0 ++ l)
        (filter-agree (λ n. not (holds n pushed.1)) (λ n. not (holds n pushed.0)) existing
          (λ id stands. ap not (seen-pushed id ∙ sym (out-pushed id))))

pub ordered-arranged :
    (existing names : List Text) → ordered_of existing names ≡ arranged existing (trimmed names)
unfolding ordered_of arranged
ordered-arranged existing names = refl
