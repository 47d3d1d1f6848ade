-- ===== src/Chars/Splitting.antt =====
-- What splitting leaves, and how it undoes joining.
use alayaface.Prelude.{
  ℕ, ◌≡◌, refl, Bool, true, false, not, List, [], ◌∷◌, ◌++◌, arith, Text, contains, all, ◌==◌,
  ==_refl,
}
use alayaface.Chars.{is_whitespace, trim_start, trim_end, push_front, trim, split_on, push_head}

pub split_on-none : (d : ℕ) (s : Text) → contains d s ≡ false → split_on d s ≡ s ∷ []
unfolding split_on
split_on-none d [] h = refl
split_on-none d (c ∷ cs) h = ground (arith, split_on-none d cs)

pub split_on-append :
    (d : ℕ) (w rest : Text)
    → contains d w ≡ false
    → split_on d (w ++ d ∷ rest) ≡ w ∷ split_on d rest
unfolding split_on
split_on-append d [] rest h = rw (==_refl d) refl
split_on-append d (c ∷ cs) rest h = ground (arith, split_on-append d cs rest)

all-push_head :
    (d c : ℕ) (words : List Text)
    → (c == d) ≡ false
    → all (λ w. not (contains d w)) words ≡ true
    → all (λ w. not (contains d w)) (push_head c words) ≡ true
all-push_head d c [] h e = rw h refl
all-push_head d c (w ∷ ws) h e = ground arith

-- No part contains the separator.
pub split_on-all : (d : ℕ) (s : Text) → all (λ w. not (contains d w)) (split_on d s) ≡ true
unfolding split_on
split_on-all d [] = refl
split_on-all d (c ∷ cs) = ground (arith, split_on-all d cs, all-push_head d c (split_on d cs))

contains-trim_start :
    (d : ℕ) (p : ℕ → Bool) (s : Text) → contains d s ≡ false → contains d (trim_start p s) ≡ false
unfolding trim_start
contains-trim_start d p [] h = refl
contains-trim_start d p (c ∷ cs) h = ground (arith, contains-trim_start d p cs)

contains-push_front :
    (d : ℕ) (p : ℕ → Bool) (c : ℕ) (s : Text)
    → (c == d) ≡ false
    → contains d s ≡ false
    → contains d (push_front p c s) ≡ false
contains-push_front d p c [] h e = ground arith
contains-push_front d p c (x ∷ xs) h e = ground arith

contains-trim_end :
    (d : ℕ) (p : ℕ → Bool) (s : Text) → contains d s ≡ false → contains d (trim_end p s) ≡ false
unfolding trim_end
contains-trim_end d p [] h = refl
contains-trim_end d p (c ∷ cs) h =
    contains-push_front d p c (trim_end p cs) (ground arith)
      (contains-trim_end d p cs (ground arith))

pub contains-trim : (d : ℕ) (s : Text) → contains d s ≡ false → contains d (trim s) ≡ false
unfolding trim
contains-trim d s h =
    contains-trim_end d is_whitespace (trim_start is_whitespace s)
      (contains-trim_start d is_whitespace s h)
