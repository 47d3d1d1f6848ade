-- ===== src/Waiting/Lengths.antt =====
-- The lengths that `wait_for_file` of src-tauri/src/commands/mod.rs has seen, and what it keeps of them.
use alayaface.Prelude.{
  ℕ, zero, suc, ◌≤◌, ◌≡◌, refl, ap, ap₂, ◌∙◌, sym, true, false, not, Option, some, none, List, [],
  ◌∷◌, take, is_empty, ltb, leb, ◌==◌, Bool-cases, inl, inr, arith, and_left, and_right,
}
use alayaface.Waiting.{stable_window, observe, is_stable}

abbrev pub copies : ℕ → ℕ → List ℕ
copies zero x = []
copies (suc n) x = x ∷ copies n x

-- The length of a file that is there and not empty is put before the others.
abbrev pub push : Option ℕ → List ℕ → List ℕ
push none xs = xs
push (some zero) xs = xs
push (some (suc len)) xs = suc len ∷ xs

-- the lengths in the turns before `n`, the last first
abbrev pub lengths : (ℕ → Option ℕ) → ℕ → List ℕ
lengths size zero = []
lengths size (suc n) = push (size n) (lengths size n)

pub record IsObserved (seen stable : ℕ) (xs : List ℕ) : Type 0 where
  pub counted : take stable xs ≡ copies stable seen
  pub any_seen : is_empty xs ≡ not (ltb 0 seen)

take-take : (k n : ℕ) (xs : List ℕ) → k ≤ n → take k (take n xs) ≡ take k xs
take-take zero n xs le = refl
take-take (suc k) zero xs le = absurd (omega arith)
take-take (suc k) (suc n) [] le = refl
take-take (suc k) (suc n) (x ∷ xs) le = ap (◌∷◌ x) (take-take k n xs (omega arith))

take-copies : (k n x : ℕ) → k ≤ n → take k (copies n x) ≡ copies k x
take-copies zero n x le = refl
take-copies (suc k) zero x le = absurd (omega arith)
take-copies (suc k) (suc n) x le = ap (◌∷◌ x) (take-copies k n x (omega arith))

same_of_test : (a b : ℕ) → (a == b) ≡ true → a ≡ b
same_of_test a b h = ground arith

positive : (len : ℕ) → false ≡ not (ltb 0 (suc len))
positive len = ground arith

pub observe-IsObserved :
    (o : Option ℕ) (seen stable : ℕ) (xs : List ℕ)
    → IsObserved seen stable xs
    → IsObserved (observe o seen stable).0 (observe o seen stable).1 (push o xs)
unfolding observe
observe-IsObserved none seen stable xs i = i
observe-IsObserved (some zero) seen stable xs i = i
observe-IsObserved (some (suc len)) seen stable xs i = elim (Bool-cases (suc len == seen)) [
  | inl e ↦
      let same : suc len ≡ seen = same_of_test (suc len) seen e in
      rw e record {
        counted = ap₂ (λ y ys. y ∷ ys) same i.counted;
        any_seen = rw (sym same) (positive len);
      }
  | inr e ↦ rw e record { counted = refl; any_seen = positive len }
]

leb→le : (a b : ℕ) → leb a b ≡ true → a ≤ b
leb→le a b h = ground arith

-- A file is stable when the last lengths that fill the window are all the same.
pub is_stable-copies :
    (o : Option ℕ) (seen stable : ℕ) (xs : List ℕ)
    → IsObserved seen stable xs
    → is_stable o seen stable ≡ true
    → take stable_window (push o xs) ≡ copies stable_window seen
unfolding is_stable
is_stable-copies none seen stable xs i h = cc
is_stable-copies (some zero) seen stable xs i h = cc
is_stable-copies (some (suc len)) seen stable xs i h =
    let same : suc len ≡ seen =
      same_of_test (suc len) seen (and_left (suc len == seen) (leb stable_window (suc stable)) h) in
    let le : stable_window ≤ suc stable =
      leb→le stable_window (suc stable)
        (and_right (suc len == seen) (leb stable_window (suc stable)) h) in
    let all_same : take (suc stable) (suc len ∷ xs) ≡ copies (suc stable) seen =
      ap₂ (λ y ys. y ∷ ys) same i.counted in
    sym (take-take stable_window (suc stable) (suc len ∷ xs) le)
    ∙ ap (take stable_window) all_same
    ∙ take-copies stable_window (suc stable) seen le
