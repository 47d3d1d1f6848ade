-- ===== src/Tests/WaitingTests.antt =====
-- A child that does not end when it is asked, and a file that grows.
use alayaface.Prelude.{
  ℕ, suc, ◌+◌, ◌*◌, ◌≤◌, ◌<◌, ◌≡◌, refl, Bool, true, false, Option, none, some, [], ◌∷◌, ◌++◌, ◌==◌,
  ltb, Text, codes, if◌then◌else◌, Result, ok, ◌⊎◌, arith,
}
use alayaface.Waiting.{
  Poll, running, Outcome, close_stdin, kill, wait, poll_interval, close_child_gracefully,
  wait_for_file,
}
use alayaface.Waiting.Exit.{IsEnded}
use alayaface.Waiting.Children.{goodbye, forced, close_child_gracefully-ends}
use alayaface.Waiting.Lengths.{lengths}
use alayaface.Waiting.Files.{Says, wait_for_file-ends}
use alayaface.Tests.ToyJson.{Toy, toy_json}

-- a clock that takes the interval for each turn
abbrev clock : ℕ → ℕ
clock n = 50 * n

clock_sleeps : (n : ℕ) → clock n + poll_interval ≤ clock (suc n)
clock_sleeps n = omega arith

abbrev hung : ℕ → Poll
hung n = running

-- The lock comes in the third attempt.
abbrev third : ℕ → Bool
third n = n == 2

abbrev shown : Toy → Text
shown v = codes "{}"

close_child_gracefully-ends_example :
    (((m : ℕ) → m < 10 → third m ≡ false)
      × (close_child_gracefully clock toy_json shown 100 third true hung 4
          ≡ some (kill ∷ wait ∷ [])))
    ⊎ ((m : ℕ) × (m < 10)
        × (third m ≡ true)
        × (outcome : Outcome) × IsEnded clock hung 100 0 3 outcome
        × (close_child_gracefully clock toy_json shown 100 third true hung 4
            ≡ some ((goodbye toy_json shown true ++ close_stdin ∷ []) ++ forced outcome)))
close_child_gracefully-ends_example =
    close_child_gracefully-ends toy_json shown clock 100 third true hung 3 clock_sleeps
      (omega arith)

-- A file is there from the second turn on, and has its length from the fourth.
abbrev growing : ℕ → Option ℕ
growing n = if ltb n 1 then none else if ltb n 3 then some n else some 7

wait_for_file-ends_example :
    (r : Result Text (Unit {0})) × (wait_for_file clock growing 202 0 0 0 ≡ some r)
    × (t : ℕ) × (t ≤ 201)
    × (wait_for_file clock growing t 0 0 0 ≡ none)
    × (wait_for_file clock growing (suc t) 0 0 0 ≡ some r)
    × ((m : ℕ) → m < t → clock m ≤ 10_000)
    × Says (lengths growing (suc t)) (clock t) r
wait_for_file-ends_example = wait_for_file-ends clock growing 201 clock_sleeps (omega arith)

grown : wait_for_file clock growing 202 0 0 0 ≡ some (ok tt)
unfolding wait_for_file
grown = refl
