-- ===== src/Waiting/Files.antt =====
-- How `wait_for_file` of src-tauri/src/commands/mod.rs ends.
use alayaface.Prelude.{
  ℕ, zero, suc, ◌+◌, ◌*◌, ◌≤◌, ◌<◌, ◌≡◌, refl, ap, ◌∙◌, subst, true, false, not, Option, none, some,
  List, [], ◌∷◌, take, is_empty, Text, codes, ltb, ltb→lt, ltb→le, Bool-cases, inl, inr, ◌⊎◌,
  if◌then◌else◌, Result, ok, err, arith,
}
use alayaface.Waiting.{
  poll_interval, file_deadline, stable_window, observe, is_stable, wait_for_file,
}
use alayaface.Waiting.Lengths.{
  copies, push, lengths, IsObserved, observe-IsObserved, is_stable-copies,
}

-- What an answer says of the lengths that were seen, and of the clock.
abbrev pub Says : List ℕ → ℕ → Result Text (Unit {0}) → Type 0
Says xs clock (ok done) =
    ((len : ℕ) × (take stable_window xs ≡ copies stable_window len))
    ⊎ ((file_deadline < clock) × (is_empty xs ≡ false))
Says xs clock (err e) = (file_deadline < clock) × (xs ≡ [])

nothing_seen : (xs : List ℕ) → is_empty xs ≡ true → xs ≡ []
nothing_seen [] h = refl
nothing_seen (x ∷ xs) h = cc

timed_answer :
    (xs : List ℕ) (clock seen : ℕ) (e : Text)
    → file_deadline < clock
    → is_empty xs ≡ not (ltb 0 seen)
    → Says xs clock (if ltb 0 seen then ok tt else err e)
timed_answer xs clock seen e late any = elim (Bool-cases (ltb 0 seen)) [
  | inl there ↦ rw there (inr (late, any ∙ rw there refl))
  | inr nothing ↦ rw nothing (late, nothing_seen xs (any ∙ rw nothing refl))
]

abbrev timeout_error : Text
timeout_error = codes "Timeout waiting for fork to complete"

module _ (elapsed : ℕ → ℕ) (size : ℕ → Option ℕ) where
  -- The loop from turn `n` on answers after `left` more turns: it has no answer before.
  abbrev pub AnswersAt : ℕ → ℕ → ℕ → ℕ → Result Text (Unit {0}) → Type 0
  AnswersAt n seen stable left r =
      (wait_for_file elapsed size left n seen stable ≡ none)
      × (wait_for_file elapsed size (suc left) n seen stable ≡ some r)

  -- It does so within the fuel, and the answer fits what was seen by then.
  abbrev pub Answers : ℕ → ℕ → ℕ → ℕ → Type 0
  Answers fuel n seen stable =
      (r : Result Text (Unit {0})) × (wait_for_file elapsed size (suc fuel) n seen stable ≡ some r)
      × (left : ℕ) × (left ≤ fuel)
      × AnswersAt n seen stable left r
      × ((m : ℕ) → n ≤ m → m < n + left → elapsed m ≤ file_deadline)
      × Says (lengths size (suc (n + left))) (elapsed (n + left)) r

  no_turn : (n seen stable : ℕ) → wait_for_file elapsed size 0 n seen stable ≡ none
  unfolding wait_for_file
  no_turn n seen stable = refl

  stable_turn :
      (fuel n seen stable : ℕ)
      → is_stable (size n) seen stable ≡ true
      → wait_for_file elapsed size (suc fuel) n seen stable ≡ some (ok tt)
  unfolding wait_for_file
  stable_turn fuel n seen stable e = rw (wait_for_file, e) refl

  late_turn :
      (fuel n seen stable : ℕ)
      → is_stable (size n) seen stable ≡ false
      → ltb file_deadline (elapsed n) ≡ true
      → wait_for_file elapsed size (suc fuel) n seen stable
        ≡ some (if ltb 0 ((observe (size n) seen stable).0) then ok tt else err timeout_error)
  unfolding wait_for_file
  late_turn fuel n seen stable e late = rw (wait_for_file, e, late) refl

  early_turn :
      (fuel n seen stable : ℕ)
      → is_stable (size n) seen stable ≡ false
      → ltb file_deadline (elapsed n) ≡ false
      → wait_for_file elapsed size (suc fuel) n seen stable
        ≡ wait_for_file elapsed size fuel
            (suc n)
            (observe (size n) seen stable).0
            (observe (size n) seen stable).1
  unfolding wait_for_file
  early_turn fuel n seen stable e early = rw (wait_for_file, e, early) refl

  -- A turn that answers.
  Answers-now :
      (fuel n seen stable : ℕ) (r : Result Text (Unit {0}))
      → ((k : ℕ) → wait_for_file elapsed size (suc k) n seen stable ≡ some r)
      → Says (lengths size (suc n)) (elapsed n) r
      → Answers fuel n seen stable
  Answers-now fuel n seen stable r answers says =
      let here : n ≡ n + 0 = omega arith in
      (
        r,
        answers fuel,
        0,
        omega arith,
        (no_turn n seen stable, answers 0),
        λ m from before. absurd (omega arith),
        subst (λ t. Says (lengths size (suc t)) (elapsed t) r) here says,
      )

  -- A turn answers, or there is time for the next.
  turn-Answers :
      (fuel n seen stable : ℕ)
      → IsObserved seen stable (lengths size n)
      → (elapsed n ≤ file_deadline
          → (f : ℕ) × (fuel ≡ suc f)
            × Answers f (suc n) (observe (size n) seen stable).0 (observe (size n) seen stable).1)
      → Answers fuel n seen stable
  turn-Answers fuel n seen stable i next =
      let after : IsObserved (observe (size n) seen stable).0 (observe (size n) seen stable).1
          (push (size n) (lengths size n)) =
        observe-IsObserved (size n) seen stable (lengths size n) i in
      let kept = (observe (size n) seen stable).0 in
      elim (Bool-cases (is_stable (size n) seen stable)) [
        | inl e ↦
            Answers-now fuel n seen stable (ok tt) (λ k. stable_turn k n seen stable e)
              (inl (seen, is_stable-copies (size n) seen stable (lengths size n) i e))
        | inr e ↦ elim (Bool-cases (ltb file_deadline (elapsed n))) [
          | inl late ↦
              Answers-now fuel n seen stable (if ltb 0 kept then ok tt else err timeout_error)
                (λ k. late_turn k n seen stable e late)
                (timed_answer (push (size n) (lengths size n)) (elapsed n) kept timeout_error
                  (ltb→lt file_deadline (elapsed n) late) after.any_seen)
          | inr early ↦
              let (f, more, (r, h, left, le, (none_yet, then_some), in_time, says)) =
                next (ltb→le file_deadline (elapsed n) early) in
              let there : suc n + left ≡ n + suc left = omega arith in
              (
                r,
                early_turn fuel n seen stable e early
                    ∙ ap
                        (λ k.
                          wait_for_file elapsed size k (suc n) kept
                            (observe (size n) seen stable).1)
                        more
                    ∙ h,
                suc left,
                omega arith,
                (
                  early_turn left n seen stable e early ∙ none_yet,
                  early_turn (suc left) n seen stable e early ∙ then_some,
                ),
                λ m from before. elim (Bool-cases (ltb n m)) [
                  | inl after ↦ in_time m (ltb→lt n m after) (omega arith)
                  | inr not_after ↦
                      let same : n ≡ m = omega (arith, ltb→le n m not_after) in
                      subst (λ x. elapsed x ≤ file_deadline) same
                        (ltb→le file_deadline (elapsed n) early)
                ],
                subst (λ t. Says (lengths size (suc t)) (elapsed t) r) there says,
              )
        ]
      ]

  module _ (sleeps : (n : ℕ) → elapsed n + poll_interval ≤ elapsed (suc n)) where
    wait_from :
        (fuel n seen stable : ℕ)
        → IsObserved seen stable (lengths size n)
        → file_deadline < elapsed n + poll_interval * fuel
        → Answers fuel n seen stable
    wait_from zero n seen stable i enough =
        turn-Answers zero n seen stable i λ early. absurd (omega arith)
    wait_from (suc fuel) n seen stable i enough = turn-Answers (suc fuel) n seen stable i λ early. (
      fuel,
      refl,
      wait_from fuel (suc n) (observe (size n) seen stable).0 (observe (size n) seen stable).1
          (observe-IsObserved (size n) seen stable (lengths size n) i) (omega (arith, sleeps n)),
    )

-- Waiting for the file of a fork ends, if each turn takes at least the interval between two polls and the
-- fuel covers the deadline. There is one turn `t` that answers: with fuel for the turns before it the loop
-- has no answer yet, and with one more it has; no turn before it was past the deadline. It succeeds at a turn where the last six lengths of the
-- file, of those turns that found it there and not empty, are all the same, or at one past the deadline if
-- any turn found it so. It fails only past the deadline, if no turn found it so.
pub wait_for_file-ends :
    (elapsed : ℕ → ℕ) (size : ℕ → Option ℕ) (fuel : ℕ)
    → ((n : ℕ) → elapsed n + poll_interval ≤ elapsed (suc n))
    → file_deadline < elapsed 0 + poll_interval * fuel
    → (r : Result Text (Unit {0})) × (wait_for_file elapsed size (suc fuel) 0 0 0 ≡ some r)
      × (t : ℕ) × (t ≤ fuel)
      × (wait_for_file elapsed size t 0 0 0 ≡ none)
      × (wait_for_file elapsed size (suc t) 0 0 0 ≡ some r)
      × ((m : ℕ) → m < t → elapsed m ≤ file_deadline)
      × Says (lengths size (suc t)) (elapsed t) r
wait_for_file-ends elapsed size fuel sleeps enough =
    let (r, h, t, le, (none_yet, then_some), in_time, says) =
      wait_from elapsed size sleeps fuel 0 0 0 record { counted = refl; any_seen = refl } enough in
    let start : 0 + t ≡ t = omega arith in
    (
      r,
      h,
      t,
      le,
      none_yet,
      then_some,
      λ m before. in_time m (omega arith) (omega arith),
      subst (λ k. Says (lengths size (suc k)) (elapsed k) r) start says,
    )
