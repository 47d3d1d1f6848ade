-- ===== src/Waiting/Children.antt =====
-- What is done to a child that is closed: src-tauri/src/alayacore.rs.
use alayaface.Prelude.{
  ℕ, zero, suc, ◌+◌, ◌*◌, ◌≤◌, ◌<◌, ◌≡◌, refl, ap, sym, Bool, true, false, some, List, [], ◌∷◌,
  ◌++◌, append-nil, Text, codes, Bool-cases, inl, inr, ◌⊎◌, arith, ltb, ltb→lt, ltb→le, subst,
}
use alayaface.Json.{Serde}
use alayaface.Waiting.{
  Poll, Outcome, gone, timed_out, Action, send, flush, close_stdin, kill, wait, poll_interval,
  after_wait, gets_lock, farewell, close_child_gracefully,
}
use alayaface.Waiting.Exit.{IsEnded, wait_exit-IsEnded}

-- A frame with a command that has an id and a name, and no other field.
abbrev pub command : (serde : Serde) → (serde.Value → Text) → Text → Text → Action
command serde to_string id name = send (codes "CI") (
    to_string (
      serde.object
        ((codes "command_id", serde.string id) ∷ (codes "name", serde.string name) ∷ [])))

-- What is written to a child whose pipe is still open: first the command to cancel, then the one to save.
abbrev pub goodbye : (serde : Serde) → (serde.Value → Text) → Bool → List Action
goodbye serde to_string false = []
goodbye serde to_string true =
    command serde to_string (codes "alayaface-close-cancel") (codes "cancel")
    ∷ command serde to_string (codes "alayaface-close-save") (codes "save")
    ∷ flush
    ∷ []

farewell-goodbye :
    (serde : Serde) (to_string : serde.Value → Text) (stdin : Bool)
    → farewell serde to_string stdin ≡ goodbye serde to_string stdin
unfolding farewell
farewell-goodbye serde to_string false = refl
farewell-goodbye serde to_string true = refl

-- A child whose time is up is killed and waited for.
abbrev pub forced : Outcome → List Action
forced gone = []
forced timed_out = kill ∷ wait ∷ []

after_wait-forced :
    (before : List Action) (outcome : Outcome)
    → after_wait before (some outcome) ≡ some (before ++ forced outcome)
after_wait-forced before gone = ap some (sym (append-nil before))
after_wait-forced before timed_out = refl

plus_zero : (n : ℕ) → 0 + n ≡ n
plus_zero n = omega arith

gets_lock-none :
    (locks : ℕ → Bool) (left n : ℕ)
    → gets_lock locks left n ≡ false
    → (m : ℕ) → n ≤ m
    → m < n + left
    → locks m ≡ false
unfolding gets_lock
gets_lock-none locks zero n h m from before = absurd (omega arith)
gets_lock-none locks (suc left) n h m from before =
    let no : locks n ≡ false = ground arith in
    let later : gets_lock locks left (suc n) ≡ false = ground arith in
    elim (Bool-cases (ltb n m)) [
      | inl after ↦ gets_lock-none locks left (suc n) later m (ltb→lt n m after) (omega arith)
      | inr not_after ↦
          let same : n ≡ m = omega (arith, ltb→le n m not_after) in
          subst (λ x. locks x ≡ false) same no
    ]

gets_lock-some :
    (locks : ℕ → Bool) (left n : ℕ)
    → gets_lock locks left n ≡ true
    → (m : ℕ) × (m < n + left) × (locks m ≡ true)
unfolding gets_lock
gets_lock-some locks zero n h = cc
gets_lock-some locks (suc left) n h = elim (Bool-cases (locks n)) [
  | inl e ↦ (n, omega arith, e)
  | inr e ↦
      let (m, before, got) = gets_lock-some locks left (suc n) (ground arith) in
      (m, omega arith, got)
]

-- Closing a child ends, whatever it does, if each turn of the loop takes at least the interval between
-- two polls and the fuel covers the timeout. If the pipe is locked in all ten attempts, the child is
-- killed and waited for at once. Otherwise it is sent the command to cancel and then the one to save, both
-- without arguments, if its pipe is still open, and its stdin is closed after that; it is killed and waited for only if it ran in every turn up to
-- one past the timeout.
pub close_child_gracefully-ends :
    (serde : Serde) (to_string : serde.Value → Text) (elapsed : ℕ → ℕ) (timeout : ℕ)
    (locks : ℕ → Bool) (stdin : Bool) (try_wait : ℕ → Poll) (fuel : ℕ)
    → ((n : ℕ) → elapsed n + poll_interval ≤ elapsed (suc n))
    → timeout < elapsed 0 + poll_interval * fuel
    → (((m : ℕ) → m < 10 → locks m ≡ false)
        × (close_child_gracefully elapsed serde to_string timeout locks stdin try_wait (suc fuel)
            ≡ some (kill ∷ wait ∷ [])))
      ⊎ ((m : ℕ) × (m < 10)
          × (locks m ≡ true)
          × (outcome : Outcome) × IsEnded elapsed try_wait timeout 0 fuel outcome
          × (close_child_gracefully elapsed serde to_string timeout locks stdin try_wait (suc fuel)
              ≡ some ((goodbye serde to_string stdin ++ close_stdin ∷ []) ++ forced outcome)))
unfolding close_child_gracefully
close_child_gracefully-ends serde to_string elapsed timeout locks stdin try_wait fuel sleeps
      enough =
    elim (Bool-cases (gets_lock locks 10 0)) [
      | inr e ↦ inl (λ m before. gets_lock-none locks 10 0 e m (omega arith) before, rw (e) refl)
      | inl e ↦
          let (m, before, got) = gets_lock-some locks 10 0 e in
          let (outcome, h, ended) =
            wait_exit-IsEnded elapsed try_wait timeout sleeps fuel 0 enough in
          inr (
            m,
            before,
            got,
            outcome,
            subst (λ limit. IsEnded elapsed try_wait timeout 0 limit outcome) (plus_zero fuel)
                ended,
            rw (e, h, farewell-goodbye serde to_string stdin)
                (after_wait-forced (goodbye serde to_string stdin ++ close_stdin ∷ []) outcome),
          )
    ]
