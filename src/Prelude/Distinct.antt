-- ===== src/Prelude/Distinct.antt =====
-- Texts in a list: which stand in it, and that none stands in it twice.
use mathlib.Core.Path.{◌≡◌, refl, ap, ◌∙◌}
use mathlib.Core.Bool.{Bool, true, false, ◌&&◌, ◌||◌}
use mathlib.Core.Logic.{inl, inr}
use alayaface.Prelude.Tests.{Bool-cases, if◌then◌else◌}
use alayaface.Prelude.Lists.{filter}
use mathlib.Core.List.{List, [], ◌∷◌, ◌++◌}
use native.Mathlib.Omega.{arith}
use alayaface.Prelude.Texts.{Text, text_eq, text_eq_iff, text_eq_refl, eq_of_text_eq}

-- The text stands in the list.
unfoldable pub holds : Text → List Text → Bool
holds id [] = false
holds id (x ∷ xs) = text_eq id x || holds id xs

-- No text stands in the list twice.
abbrev pub IsDistinct : List Text → Type 0
IsDistinct [] = Unit
IsDistinct (x ∷ xs) = (holds x xs ≡ false) × IsDistinct xs

pub holds-append :
    (id : Text) (xs ys : List Text) → holds id (xs ++ ys) ≡ (holds id xs || holds id ys)
unfolding holds
holds-append id [] ys = refl
holds-append id (x ∷ xs) ys = ground (arith, holds-append id xs ys)

pub IsDistinct-snoc :
    (id : Text) (xs : List Text) → holds id xs ≡ false → IsDistinct xs → IsDistinct (xs ++ id ∷ [])
unfolding holds
IsDistinct-snoc id [] h d = (refl, tt)
IsDistinct-snoc id (x ∷ xs) h d = (
  ground (arith, holds-append x xs (id ∷ []), text_eq_iff x id, text_eq_iff id x),
  IsDistinct-snoc id xs (ground arith) d.1,
)

or_true_right : (b : Bool) → (b || true) ≡ true
or_true_right true = refl
or_true_right false = refl

-- A test that does not tell equal texts apart passes on those that stand in the list.
pub holds-filter :
    (p : Text → Bool) (id : Text) (xs : List Text) → holds id (filter p xs) ≡ (holds id xs && p id)
unfolding holds
holds-filter p id [] = refl
holds-filter p id (x ∷ xs) = elim (Bool-cases (text_eq id x)) [
  | inl e ↦
      let same : p id ≡ p x = ap p (eq_of_text_eq id x e) in ground (arith, holds-filter p id xs)
  | inr e ↦ ground (arith, holds-filter p id xs)
]

pub IsDistinct-filter :
    (p : Text → Bool) (xs : List Text) → IsDistinct xs → IsDistinct (filter p xs)
IsDistinct-filter p [] d = tt
IsDistinct-filter p (x ∷ xs) d = elim (Bool-cases (p x)) [
  | inl e ↦ rw e (rw (holds-filter p x xs) (rw d.0 refl), IsDistinct-filter p xs d.1)
  | inr e ↦ rw e (IsDistinct-filter p xs d.1)
]

-- Tests that agree on what stands in the list keep the same.
pub filter-agree :
    (p q : Text → Bool) (xs : List Text)
    → ((id : Text) → holds id xs ≡ true → p id ≡ q id)
    → filter p xs ≡ filter q xs
unfolding holds
filter-agree p q [] h = refl
filter-agree p q (x ∷ xs) h =
    let at : p x ≡ q x = h x (rw (text_eq_refl x) refl) in
    rw (at, filter-agree p q xs (λ id stands. h id (rw (stands) (or_true_right (text_eq id x)))))
      refl

pub IsDistinct-append :
    (xs ys : List Text)
    → IsDistinct xs
    → IsDistinct ys
    → ((id : Text) → holds id xs ≡ true → holds id ys ≡ false)
    → IsDistinct (xs ++ ys)
unfolding holds
IsDistinct-append [] ys dx dy apart = dy
IsDistinct-append (x ∷ xs) ys dx dy apart = (
  holds-append x xs ys ∙ rw (dx.0) (apart x (rw (text_eq_refl x) refl)),
  IsDistinct-append xs ys dx.1 dy
      (λ id stands. apart id (rw stands (or_true_right (text_eq id x)))),
)

filter-const : (b : Bool) (xs : List Text) → filter (λ id. b) xs ≡ (if b then xs else [])
filter-const true [] = refl
filter-const false [] = refl
filter-const true (x ∷ xs) = ap (◌∷◌ x) (filter-const true xs)
filter-const false (x ∷ xs) = filter-const false xs

-- A test that answers the same on all of the list keeps all or nothing.
pub filter_same :
    (b : Bool) (p : Text → Bool) (xs : List Text)
    → ((id : Text) → holds id xs ≡ true → p id ≡ b)
    → filter p xs ≡ (if b then xs else [])
filter_same b p xs h = filter-agree p (λ id. b) xs h ∙ filter-const b xs
