-- ===== src/Presets/Wanted.antt =====
-- The names that the first loop of `reorder_presets` of src-tauri/src/commands/presets.rs takes from a
-- request.
use alayaface.Prelude.{
  ◌≡◌, refl, sym, ap, ◌∙◌, true, false, not, ◌&&◌, ◌||◌, List, [], ◌∷◌, Text, text_eq,
  eq_of_text_eq, if◌then◌else◌, holds, Bool-cases, inl, inr,
}
use alayaface.Chars.{trim}
use alayaface.Dirs.Presets.{push_new}
use alayaface.Presets.{trimmed}

-- Of the requested names, trimmed: those that exist, each where it is requested first. `before` are the
-- names that were requested before.
abbrev pub wanted : List Text → List Text → List Text → List Text
wanted existing before [] = []
wanted existing before (name ∷ names) =
    let rest = wanted existing (trim name ∷ before) names in
    if holds (trim name) existing && not (holds (trim name) before) then trim name ∷ rest else rest

-- Two lists hold the same of the names that exist.
abbrev Agree : List Text → List Text → List Text → Type 0
Agree existing xs ys = (k : Text) → holds k existing ≡ true → holds k xs ≡ holds k ys

holds_cons : (k x : Text) (xs : List Text) → holds k (x ∷ xs) ≡ (text_eq k x || holds k xs)
unfolding holds
holds_cons k x xs = refl

Agree-missing :
    (existing seen before : List Text) (x : Text)
    → holds x existing ≡ false
    → Agree existing seen before
    → Agree existing seen (x ∷ before)
Agree-missing existing seen before x missing agree k there = elim (Bool-cases (text_eq k x)) [
  | inl same ↦
      let clash : true ≡ false =
        sym there ∙ ap (λ y. holds y existing) (eq_of_text_eq k x same) ∙ missing in
      cc
  | inr other ↦ agree k there ∙ sym (holds_cons k x before ∙ ap (λ b. b || holds k before) other)
]

Agree-again :
    (existing seen before : List Text) (x : Text)
    → holds x seen ≡ true
    → Agree existing seen before
    → Agree existing seen (x ∷ before)
Agree-again existing seen before x again agree k there = elim (Bool-cases (text_eq k x)) [
  | inl same ↦
      ap (λ y. holds y seen) (eq_of_text_eq k x same)
      ∙ again
      ∙ sym (holds_cons k x before ∙ ap (λ b. b || holds k before) same)
  | inr other ↦ agree k there ∙ sym (holds_cons k x before ∙ ap (λ b. b || holds k before) other)
]

Agree-both :
    (existing seen before : List Text) (x : Text)
    → Agree existing seen before
    → Agree existing (x ∷ seen) (x ∷ before)
Agree-both existing seen before x agree k there =
    holds_cons k x seen ∙ ap (λ b. text_eq k x || b) (agree k there) ∙ sym (holds_cons k x before)

trimmed_cons : (n : Text) (ns : List Text) → trimmed (n ∷ ns) ≡ trim n ∷ trimmed ns
unfolding trimmed
trimmed_cons n ns = refl

module _ (existing : List Text) where
  push_missing :
      (seen : List Text) (x : Text) (xs : List Text)
      → holds x existing ≡ false
      → (push_new (λ n. holds n existing) seen (x ∷ xs)).0
        ≡ (push_new (λ n. holds n existing) seen xs).0
  unfolding push_new
  push_missing seen x xs e = rw (push_new, e) refl

  push_again :
      (seen : List Text) (x : Text) (xs : List Text)
      → holds x existing ≡ true
      → holds x seen ≡ true
      → (push_new (λ n. holds n existing) seen (x ∷ xs)).0
        ≡ (push_new (λ n. holds n existing) seen xs).0
  unfolding push_new
  push_again seen x xs e s = rw (push_new, e, s) refl

  push_fresh :
      (seen : List Text) (x : Text) (xs : List Text)
      → holds x existing ≡ true
      → holds x seen ≡ false
      → (push_new (λ n. holds n existing) seen (x ∷ xs)).0
        ≡ x ∷ (push_new (λ n. holds n existing) (x ∷ seen) xs).0
  unfolding push_new
  push_fresh seen x xs e s = rw (push_new, e, s) refl

  -- The loop takes what is wanted.
  pub push_new-wanted :
      (names seen before : List Text)
      → Agree existing seen before
      → (push_new (λ n. holds n existing) seen (trimmed names)).0 ≡ wanted existing before names
  unfolding push_new trimmed
  push_new-wanted [] seen before agree = refl
  push_new-wanted (n ∷ ns) seen before agree = elim (Bool-cases (holds (trim n) existing)) [
    | inr e ↦
        push_missing seen (trim n) (trimmed ns) e
        ∙ push_new-wanted ns seen (trim n ∷ before)
            (Agree-missing existing seen before (trim n) e agree)
        ∙ sym (rw e refl)
    | inl e ↦ elim (Bool-cases (holds (trim n) seen)) [
      | inl s ↦
          push_again seen (trim n) (trimmed ns) e s
          ∙ push_new-wanted ns seen (trim n ∷ before)
              (Agree-again existing seen before (trim n) s agree)
          ∙ sym (rw (e, sym (agree (trim n) e) ∙ s) refl)
      | inr s ↦
          push_fresh seen (trim n) (trimmed ns) e s
          ∙ ap (◌∷◌ (trim n)) (
              push_new-wanted ns (trim n ∷ seen) (trim n ∷ before)
                (Agree-both existing seen before (trim n) agree))
          ∙ sym (rw (e, sym (agree (trim n) e) ∙ s) refl)
    ]
  ]
