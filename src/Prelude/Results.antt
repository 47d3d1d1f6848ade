-- ===== src/Prelude/Results.antt =====
-- Rust's `Result`, with its `?` as the bind of a `do` block.
use mathlib.Core.Path.{◌≡◌, refl, sym, ap, ◌∙◌}
use mathlib.Core.Logic.{◌⊎◌, inl, inr}
use native.Mathlib.Omega.{arith}

pub data Result {ℓ κ} (E : Type ℓ) (A : Type κ) : Type (ℓ ⊔ κ) where
  ok : A → Result E A
  err : E → Result E A

module _ {ℓ} {E : Type ℓ} where
  infixl 5 ◌>>=◌
  -- The `?` operator: an error leaves the function at once.
  abbrev pub ◌>>=◌ {κ μ} : {A : Type κ} {B : Type μ} → Result E A → (A → Result E B) → Result E B
  ◌>>=◌ r next = elim r [ err e ↦ err e | ok a ↦ next a ]

  -- `Result::map_err`
  abbrev pub map_err {κ μ} : {F : Type κ} {A : Type μ} → (E → F) → Result E A → Result F A
  map_err describe r = elim r [ err e ↦ err (describe e) | ok a ↦ ok a ]

  -- What a successful function has gone through.
  pub ok_of_bind {κ μ} :
      {A : Type κ} {B : Type μ} {b : B} (r : Result E A) (next : A → Result E B)
      → ◌>>=◌ r next ≡ ok b
      → (a : A) × (r ≡ ok a) × (next a ≡ ok b)
  ok_of_bind (err e) next h = cc
  ok_of_bind (ok a) next h = (a, refl, h)

  pub same_ok {κ} : {A : Type κ} (a b : A) → ◌≡◌ {A = Result E A} (ok a) (ok b) → a ≡ b
  same_ok a b h = ground arith

  -- To split on a computed result and keep the equation.
  pub Result-cases {κ} :
      {A : Type κ} (r : Result E A) → ((a : A) × (r ≡ ok a)) ⊎ ((e : E) × (r ≡ err e))
  Result-cases (ok a) = inl (a, refl)
  Result-cases (err e) = inr (e, refl)

  -- A function that answers with a state: what failed did not succeed.
  pub refused {κ μ ν} :
      {S : Type κ} {A : Type μ} {X : Type ν} {answer : S × Result E A} {after : S} {a : A}
      (before : S) (why : E)
      → answer ≡ (before, err why)
      → answer ≡ (after, ok a)
      → X
  refused {a = a} before why failed h =
      let both : err why ≡ ok a = ap (λ p. p.1) (sym failed ∙ h) in cc both

  -- `?` after a step that changed the state
  abbrev pub go_on {κ μ ν} :
      {S : Type κ} {A : Type μ} {B : Type ν}
      → (A → S → S × Result E B)
      → S × Result E A
      → S × Result E B
  go_on next (s, err e) = (s, err e)
  go_on next (s, ok a) = next a s

  -- Functions that answer with a state and succeed alike.
  pub same_answer {κ μ} :
      {S : Type κ} {A : Type μ} (s s' : S) (a b : A)
      → ◌≡◌ {A = S × Result E A} (s, ok a) (s', ok b)
      → (s ≡ s') × (a ≡ b)
  same_answer {A = A} s s' a b h =
      let told : ◌≡◌ {A = Result E A} (ok a) (ok b) = ap (λ p. p.1) h in
      (ap (λ p. p.0) h, same_ok a b told)

  pub go_on-ok {κ μ ν} :
      {S : Type κ} {A : Type μ} {B : Type ν} (next : A → S → S × Result E B) (r : S × Result E A)
      (after : S) (b : B)
      → go_on next r ≡ (after, ok b)
      → (s : S) × (a : A) × (r ≡ (s, ok a)) × (next a s ≡ (after, ok b))
  go_on-ok next (s, ok a) after b h = (s, a, refl, h)
  go_on-ok next (s, err e) after b h = let no : (err e) ≡ (ok b) = ap (λ p. p.1) h in cc
