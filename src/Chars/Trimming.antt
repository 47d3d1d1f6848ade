-- ===== src/Chars/Trimming.antt =====
-- What trimming leaves, and what it does not change.
use alayaface.Prelude.{
  ◌++◌, Bool-cases, inl, inr, ◌⊎◌, sym, ℕ, ◌≡◌, refl, ap, ◌∙◌, Bool, true, false, [], ◌∷◌, arith,
  Text, all, any, is_empty,
}
use alayaface.Chars.{is_whitespace, trim_start, trim_end, push_front, trim}

pub trim_end-all : (p : ℕ → Bool) (s : Text) → all p s ≡ true → trim_end p s ≡ []
unfolding trim_end
trim_end-all p [] h = refl
trim_end-all p (c ∷ cs) h = ground (arith, trim_end-all p cs)

-- A text without a character to trim stays as it is.
pub trim_end-any : (p : ℕ → Bool) (s : Text) → any p s ≡ false → trim_end p s ≡ s
unfolding trim_end
trim_end-any p [] h = refl
trim_end-any p (c ∷ []) h = ground arith
trim_end-any p (c ∷ d ∷ ds) h = ap (push_front p c) (trim_end-any p (d ∷ ds) (ground arith))

pub trim_start-any : (p : ℕ → Bool) (s : Text) → any p s ≡ false → trim_start p s ≡ s
unfolding trim_start
trim_start-any p [] h = refl
trim_start-any p (c ∷ cs) h = ground arith

pub trim-any : (s : Text) → any is_whitespace s ≡ false → trim s ≡ s
unfolding trim
trim-any s h =
    ap (trim_end is_whitespace) (trim_start-any is_whitespace s h) ∙ trim_end-any is_whitespace s h

pub push_front-plain : (p : ℕ → Bool) (c : ℕ) (t : Text) → p c ≡ false → push_front p c t ≡ c ∷ t
push_front-plain p c [] h = rw h refl
push_front-plain p c (d ∷ ds) h = refl

pub trim_end-append :
    (p : ℕ → Bool) (key t : Text) → any p key ≡ false → trim_end p (key ++ t) ≡ key ++ trim_end p t
unfolding trim_end
trim_end-append p [] t h = refl
trim_end-append p (c ∷ cs) t h =
    rw (trim_end-append p cs t (ground arith))
      (push_front-plain p c (cs ++ trim_end p t) (ground arith))

trim_end-push_front :
    (p : ℕ → Bool) (c : ℕ) (t : Text)
    → trim_end p t ≡ t
    → trim_end p (push_front p c t) ≡ push_front p c t
unfolding trim_end
trim_end-push_front p c [] h = elim (Bool-cases (p c)) [
  | inl e ↦ rw e refl
  | inr e ↦ rw e (rw e refl)
]
trim_end-push_front p c (d ∷ ds) h = ap (push_front p c) h

trim_end-trim_end : (p : ℕ → Bool) (s : Text) → trim_end p (trim_end p s) ≡ trim_end p s
unfolding trim_end
trim_end-trim_end p [] = refl
trim_end-trim_end p (c ∷ cs) = trim_end-push_front p c (trim_end p cs) (trim_end-trim_end p cs)

trim_start-cases :
    (p : ℕ → Bool) (s : Text)
    → (trim_start p s ≡ []) ⊎ ((c : ℕ) × (cs : Text) × (trim_start p s ≡ c ∷ cs) × (p c ≡ false))
unfolding trim_start
trim_start-cases p [] = inl refl
trim_start-cases p (c ∷ cs) = elim (Bool-cases (p c)) [
  | inl e ↦ rw e (trim_start-cases p cs)
  | inr e ↦ inr (c, cs, rw e refl, e)
]

pub trim_start-plain :
    (p : ℕ → Bool) (c : ℕ) (cs : Text) → p c ≡ false → trim_start p (c ∷ cs) ≡ c ∷ cs
unfolding trim_start
trim_start-plain p c cs h = rw h refl

-- Trimming twice is trimming once.
pub trim-trim : (s : Text) → trim (trim s) ≡ trim s
unfolding trim trim_start trim_end
trim-trim s = elim (trim_start-cases is_whitespace s) [
  | inl e ↦ rw (trim, e) refl
  | inr (c, cs, e, plain) ↦
      let kept : trim s ≡ c ∷ trim_end is_whitespace cs =
        ap (trim_end is_whitespace) e
        ∙ push_front-plain is_whitespace c (trim_end is_whitespace cs) plain in
      ap trim kept
      ∙ ap (trim_end is_whitespace)
          (trim_start-plain is_whitespace c (trim_end is_whitespace cs) plain ∙ sym kept)
      ∙ trim_end-trim_end is_whitespace (trim_start is_whitespace s)
]

-- No white space at either end, and not empty.
abbrev pub IsTight : Text → Type 0
IsTight t = (is_empty t ≡ false) × (trim_start is_whitespace t ≡ t) × (trim_end is_whitespace t ≡ t)

pub trim-space : (t : Text) → IsTight t → trim (b' ' ∷ t) ≡ t
unfolding trim trim_start is_whitespace
trim-space t h = ap (trim_end is_whitespace) (h.1) ∙ h.2

-- The text behind a mark and a space, at the end of a text.
trim_end-tight : (t : Text) → IsTight t → trim_end is_whitespace (b' ' ∷ t) ≡ b' ' ∷ t
unfolding trim_end is_whitespace
trim_end-tight [] h = let none_left : true ≡ false = h.0 in cc
trim_end-tight (d ∷ ds) h = ap (push_front is_whitespace b' ') (h.2)

pub trim-front :
    (c : ℕ) (key t : Text)
    → is_whitespace c ≡ false
    → any is_whitespace key ≡ false
    → IsTight t
    → trim (c ∷ key ++ b' ' ∷ t) ≡ c ∷ key ++ b' ' ∷ t
unfolding trim
trim-front c key t first plain tight =
    ap (trim_end is_whitespace) (trim_start-plain is_whitespace c (key ++ b' ' ∷ t) first)
    ∙ trim_end-append is_whitespace (c ∷ key) (b' ' ∷ t) (rw first plain)
    ∙ ap (◌++◌ (c ∷ key)) (trim_end-tight t tight)
