-- ===== src/Waiting.antt =====
-- The loops that wait: `kill_child` and `close_child_gracefully_with_timeout` of
-- src-tauri/src/alayacore.rs, and `wait_for_file` of src-tauri/src/commands/mod.rs. What the system
-- answers is a function of the turn; the clock counts milliseconds from the start of the loop. The loops
-- run on fuel, and answer `none` if it does not last.
pub mod Exit
pub mod Children
pub mod Lengths
pub mod Files
use alayaface.Prelude.{
  ℕ, zero, suc, ◌+◌, Bool, true, false, Option, none, some, List, [], ◌∷◌, ◌++◌, Text, codes, ltb,
  leb, ◌&&◌, ◌==◌, if◌then◌else◌, Result, ok, err,
}
use alayaface.Json.{Serde}
use alayaface.Wire.{tag_cmd_input}

-- `child.try_wait()`
pub data Poll : Type 0 where
  exited : Poll
  running : Poll
  failed : Poll

-- how a loop on `try_wait` ends: the child is gone, or cannot be asked; or the time is up
pub data Outcome : Type 0 where
  gone : Outcome
  timed_out : Outcome

-- what is done to the child, in order
pub data Action : Type 0 where
  send : Text → Text → Action
  flush : Action
  close_stdin : Action
  kill : Action
  wait : Action

-- milliseconds
abbrev pub poll_interval : ℕ
poll_interval = 50

abbrev pub kill_timeout : ℕ
kill_timeout = 3000

abbrev pub graceful_close_timeout : ℕ
graceful_close_timeout = 5000

abbrev pub file_deadline : ℕ
file_deadline = 10000

abbrev pub stable_window : ℕ
stable_window = 6

abbrev pub after_wait : List Action → Option Outcome → Option (List Action)
after_wait before none = none
after_wait before (some gone) = some before
after_wait before (some timed_out) = some (before ++ kill ∷ wait ∷ [])

-- `try_lock` in the turns that are left: some turn gets the lock
unfoldable pub gets_lock : (ℕ → Bool) → ℕ → ℕ → Bool
gets_lock locks zero n = false
gets_lock locks (suc left) n =
    let later = gets_lock locks left (suc n) in if locks n then true else later

-- `CmdMsg` without arguments, which its serializer leaves out
unfoldable pub cmd_msg : (serde : Serde) → (serde.Value → Text) → Text → Text → Text
cmd_msg serde to_string id name =
    to_string (
      serde.object ((codes "command_id", serde.string id) ∷ (codes "name", serde.string name) ∷ []))

-- what is sent to a child whose stdin is open
unfoldable pub farewell : (serde : Serde) → (serde.Value → Text) → Bool → List Action
unfolding cmd_msg
farewell serde to_string false = []
farewell serde to_string true =
    send tag_cmd_input (cmd_msg serde to_string (codes "alayaface-close-cancel") (codes "cancel"))
    ∷ send tag_cmd_input (cmd_msg serde to_string (codes "alayaface-close-save") (codes "save"))
    ∷ flush
    ∷ []

-- a turn of `wait_for_file` on the length of the file: the length seen, and how often
unfoldable pub observe : Option ℕ → ℕ → ℕ → ℕ × ℕ
observe none seen stable = (seen, stable)
observe (some zero) seen stable = (seen, stable)
observe (some (suc len)) seen stable = if suc len == seen then (seen, suc stable) else (suc len, 1)

-- The turn has counted an unchanged file once more.
unfoldable pub is_stable : Option ℕ → ℕ → ℕ → Bool
is_stable none seen stable = false
is_stable (some zero) seen stable = false
is_stable (some (suc len)) seen stable = suc len == seen && leb stable_window (suc stable)

module _ (elapsed : ℕ → ℕ) where
  -- the loop on `try_wait`, from a turn on
  unfoldable pub wait_exit : ℕ → (ℕ → Poll) → ℕ → ℕ → Option Outcome
  wait_exit timeout try_wait zero n = none
  wait_exit timeout try_wait (suc fuel) n =
      let later = wait_exit timeout try_wait fuel (suc n) in
      elim (try_wait n) [
        | exited ↦ some gone
        | failed ↦ some gone
        | running ↦ if ltb timeout (elapsed n) then some timed_out else later
      ]

  unfoldable pub kill_child : (ℕ → Poll) → ℕ → Option (List Action)
  unfolding wait_exit
  kill_child try_wait fuel = after_wait (close_stdin ∷ []) (wait_exit kill_timeout try_wait fuel 0)

  -- The clock is that of the second loop; `stdin` is whether the pipe is still there.
  unfoldable pub close_child_gracefully :
      (serde : Serde)
      → (serde.Value → Text)
      → ℕ
      → (ℕ → Bool)
      → Bool
      → (ℕ → Poll)
      → ℕ
      → Option (List Action)
  unfolding gets_lock farewell wait_exit
  close_child_gracefully serde to_string timeout locks stdin try_wait fuel =
      if gets_lock locks 10 0
      then after_wait (farewell serde to_string stdin ++ close_stdin ∷ [])
          (wait_exit timeout try_wait fuel 0)
      else some (kill ∷ wait ∷ [])

  -- `wait_for_file`, from a turn on
  unfoldable pub wait_for_file : (ℕ → Option ℕ) → ℕ → ℕ → ℕ → ℕ → Option (Result Text (Unit {0}))
  unfolding observe is_stable
  wait_for_file size zero n seen stable = none
  wait_for_file size (suc fuel) n seen stable =
      let next = observe (size n) seen stable in
      let later = wait_for_file size fuel (suc n) next.0 next.1 in
      if is_stable (size n) seen stable
      then some (ok tt)
      else if ltb file_deadline (elapsed n)
      then some (if ltb 0 next.0 then ok tt else err (codes "Timeout waiting for fork to complete"))
      else later
