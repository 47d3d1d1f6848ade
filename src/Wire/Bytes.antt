-- ===== src/Wire/Bytes.antt =====
-- The slices that the codec takes: `position`, `split_at`, and their laws.
use alayaface.Prelude.{
  ℕ, zero, suc, ◌≡◌, refl, Bool, Option, none, some, List, [], ◌∷◌, ◌++◌, arith, take, Option-cases,
  inl, inr, if◌then◌else◌,
}
use mathlib.Core.Option

module _ {ℓ} {A : Type ℓ} where
  -- `iter().position(p)`
  unfoldable pub position : (A → Bool) → List A → Option ℕ
  position p [] = none
  position p (x ∷ xs) = let i = position p xs in if p x then some 0 else Option.map suc i

  -- `&xs[n..]`, for a number within the length
  unfoldable pub drop : ℕ → List A → List A
  drop zero xs = xs
  drop (suc n) [] = []
  drop (suc n) (x ∷ xs) = drop n xs

  -- The list before and behind the first item that passes the test.
  unfoldable pub cut : (A → Bool) → List A → Option (List A × List A)
  cut p [] = none
  cut p (x ∷ xs) =
      if p x then some ([], xs) else Option.map (λ (c : List A × List A). (x ∷ c.0, c.1)) (cut p xs)

  pub cut-none : (p : A → Bool) (xs : List A) → position p xs ≡ none → cut p xs ≡ none
  unfolding position cut
  cut-none p [] h = refl
  cut-none p (x ∷ xs) h = ground (arith, cut-none p xs)

  pub cut-some :
      (p : A → Bool) (xs : List A) (i : ℕ)
      → position p xs ≡ some i
      → cut p xs ≡ some (take i xs, drop (suc i) xs)
  unfolding position cut drop
  cut-some p [] i h = cc
  cut-some p (x ∷ xs) zero h = ground (arith, cut-some p xs 0)
  cut-some p (x ∷ xs) (suc i) h = ground (arith, cut-some p xs i)

  pub cut-append_some :
      (p : A → Bool) (xs ys before after : List A)
      → cut p xs ≡ some (before, after)
      → cut p (xs ++ ys) ≡ some (before, after ++ ys)
  unfolding cut
  cut-append_some p [] ys before after h = cc
  cut-append_some p (x ∷ xs) ys before after h = elim (Option-cases (cut p xs)) [
    | inl e ↦ ground arith
    | inr (c, e) ↦ ground (arith, cut-append_some p xs ys c.0 c.1 e)
  ]

  pub cut-append_none :
      (p : A → Bool) (xs ys : List A)
      → cut p xs ≡ none
      → cut p (xs ++ ys) ≡ Option.map (λ (c : List A × List A). (xs ++ c.0, c.1)) (cut p ys)
  unfolding cut
  cut-append_none p [] ys h = ground arith
  cut-append_none p (x ∷ xs) ys h = ground (arith, cut-append_none p xs ys)
