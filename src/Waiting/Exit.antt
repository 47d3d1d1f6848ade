-- ===== src/Waiting/Exit.antt =====
-- How the loop on `try_wait` of src-tauri/src/alayacore.rs ends.
use alayaface.Prelude.{
  ℕ, zero, suc, ◌+◌, ◌*◌, ◌≤◌, ◌<◌, ◌≡◌, refl, ◌∙◌, subst, if◌then◌else◌, Bool, true, false, Option,
  some, ltb, ltb→lt, ltb→le, Bool-cases, inl, inr, arith,
}
use alayaface.Waiting.{
  Poll, exited, running, failed, Outcome, gone, timed_out, poll_interval, wait_exit,
}

abbrev pub is_running : Poll → Bool
is_running running = true
is_running exited = false
is_running failed = false

-- What the last turn saw.
abbrev pub Last : ℕ → ℕ → Poll → Outcome → Type 0
Last timeout clock poll gone = is_running poll ≡ false
Last timeout clock poll timed_out = (is_running poll ≡ true) × (timeout < clock)

-- A loop ended at a turn, of those from `start` to `limit`: the child ran and there was time in all turns
-- before it.
pub record IsEnded (elapsed : ℕ → ℕ) (try_wait : ℕ → Poll) (timeout start limit : ℕ)
    (outcome : Outcome) : Type 0 where
  pub turn : ℕ
  pub from_start : start ≤ turn
  pub in_time : turn ≤ limit
  pub last : Last timeout (elapsed turn) (try_wait turn) outcome
  pub earlier :
      (m : ℕ) → start ≤ m → m < turn → (is_running (try_wait m) ≡ true) × (elapsed m ≤ timeout)

runs :
    (p : Poll) (o : Option Outcome)
    → is_running p ≡ true
    → (elim p [ exited ↦ some gone | failed ↦ some gone | running ↦ o ]) ≡ o
runs running o h = refl
runs exited o h = cc
runs failed o h = cc

stops :
    (p : Poll) (o : Option Outcome)
    → is_running p ≡ false
    → (elim p [ exited ↦ some gone | failed ↦ some gone | running ↦ o ]) ≡ some gone
stops running o h = cc
stops exited o h = refl
stops failed o h = refl

module _ (elapsed : ℕ → ℕ) (try_wait : ℕ → Poll) (timeout : ℕ)
    (sleeps : (n : ℕ) → elapsed n + poll_interval ≤ elapsed (suc n)) where
  IsEnded-now :
      (start limit : ℕ) (outcome : Outcome)
      → start ≤ limit
      → Last timeout (elapsed start) (try_wait start) outcome
      → IsEnded elapsed try_wait timeout start limit outcome
  IsEnded-now start limit outcome le last = record {
    turn = start;
    from_start = omega arith;
    in_time = le;
    last = last;
    earlier = λ m from before. absurd (omega arith);
  }

  -- A turn ends the loop, or the child runs and there is time for the next.
  turn_ends :
      (fuel start : ℕ)
      → (is_running (try_wait start) ≡ true
          → elapsed start ≤ timeout
          → (outcome : Outcome) × (wait_exit elapsed timeout try_wait fuel (suc start)
              ≡ some outcome)
            × IsEnded elapsed try_wait timeout start (start + fuel) outcome)
      → (outcome : Outcome) × (wait_exit elapsed timeout try_wait (suc fuel) start ≡ some outcome)
        × IsEnded elapsed try_wait timeout start (start + fuel) outcome
  unfolding wait_exit
  turn_ends fuel start next =
      let later = wait_exit elapsed timeout try_wait fuel (suc start) in
      let rest = if ltb timeout (elapsed start) then some timed_out else later in
      elim (Bool-cases (is_running (try_wait start))) [
        | inr e ↦ (
          gone,
          stops (try_wait start) rest e,
          IsEnded-now start (start + fuel) gone (omega arith) e,
        )
        | inl e ↦ elim (Bool-cases (ltb timeout (elapsed start))) [
          | inl late ↦ (
            timed_out,
            runs (try_wait start) rest e ∙ rw late refl,
            IsEnded-now start (start + fuel) timed_out (omega arith)
                (e, ltb→lt timeout (elapsed start) late),
          )
          | inr early ↦
              let (outcome, h, ended) = next e (ltb→le timeout (elapsed start) early) in
              (outcome, runs (try_wait start) rest e ∙ rw early h, ended)
        ]
      ]

  -- the turns after the first, with the first
  one_more :
      (fuel start : ℕ) (outcome : Outcome)
      → is_running (try_wait start) ≡ true
      → elapsed start ≤ timeout
      → IsEnded elapsed try_wait timeout (suc start) (suc start + fuel) outcome
      → IsEnded elapsed try_wait timeout start (start + suc fuel) outcome
  one_more fuel start outcome e le ended = record {
    turn = ended.turn;
    from_start = omega (arith, ended.from_start);
    in_time = omega (arith, ended.in_time);
    last = ended.last;
    earlier = λ m from before. elim (Bool-cases (ltb start m)) [
      | inl after ↦ ended.earlier m (ltb→lt start m after) before
      | inr not_after ↦
          let same : start ≡ m = omega (arith, ltb→le start m not_after) in
          subst (λ x. (is_running (try_wait x) ≡ true) × (elapsed x ≤ timeout)) same (e, le)
    ];
  }

  -- The loop ends if the fuel covers the time that is left, at a turn that the fuel reaches.
  pub wait_exit-IsEnded :
      (fuel start : ℕ)
      → timeout < elapsed start + poll_interval * fuel
      → (outcome : Outcome) × (wait_exit elapsed timeout try_wait (suc fuel) start ≡ some outcome)
        × IsEnded elapsed try_wait timeout start (start + fuel) outcome
  wait_exit-IsEnded zero start enough = turn_ends zero start λ e le. absurd (omega arith)
  wait_exit-IsEnded (suc fuel) start enough = turn_ends (suc fuel) start λ e le.
      let (outcome, h, ended) = wait_exit-IsEnded fuel (suc start) (omega (arith, sleeps start)) in
      (outcome, h, one_more fuel start outcome e le ended)
