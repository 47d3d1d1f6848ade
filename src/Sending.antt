-- ===== src/Sending.antt =====
-- How the commands of the client reach a session: `write_frame_to`, `write_frames_to`, `send_cmd` and
-- `resolve_binary` of src-tauri/src/commands/mod.rs, on a session that was found. The pipe is the caller's type, with its own writes; what a failed write leaves on it is not looked at again.
pub mod Registered
pub mod Commands
use alayaface.Prelude.{
  ℕ, Bool, true, false, not, Option, none, some, List, [], ◌∷◌, Text, codes, is_empty,
  if◌then◌else◌, Result, ok, err, map_err, ◌>>=◌,
}
use alayaface.Json.{Serde}
use alayaface.Wire.{WireError, write_frame, tag_cmd_input}
use alayaface.Pending
use alayaface.Pending.{PendingCommands}

pub data SendError : Type 0 where
  disconnected : SendError
  write_error : WireError → SendError
  flush_error : Text → SendError

-- `SessionRefs`; the pipe is `none` once it is closed
pub record SessionRefs (Pipe : Type 0) : Type 0 where
  pub stdin : Option Pipe
  pub connected : Bool
  pub pending_commands : PendingCommands

abbrev pub resolve_binary : Text → Text → Text
resolve_binary found binary_path = if is_empty binary_path then found else binary_path

unfoldable pub payload_of : (serde : Serde) → (serde.Value → Text) → Text → Text → Text → Text
payload_of serde to_string id name args = to_string (
    serde.object (
      (codes "command_id", serde.string id)
      ∷ (codes "name", serde.string name)
      ∷ (codes "args", serde.string args)
      ∷ []))

module _ {Pipe : Type 0} (write_all : Pipe → Text → Result WireError Pipe)
    (flush : Pipe → Result Text Pipe) where
  -- the check and the lock before a write
  unfoldable pub open_pipe : SessionRefs Pipe → Result SendError Pipe
  open_pipe refs =
      if not refs.connected
      then err disconnected
      else elim refs.stdin [ none ↦ err disconnected | some pipe ↦ ok pipe ]

  unfoldable pub write_frame_to : SessionRefs Pipe → Text → Text → Result SendError Pipe
  unfolding open_pipe write_frame
  write_frame_to refs tag value = do
    pipe ← open_pipe refs
    written ← map_err write_error (write_frame write_all pipe tag value)
    map_err flush_error (flush written)

  -- the loop of `write_frames_to`
  unfoldable pub write_each : Pipe → List (Text × Text) → Result SendError Pipe
  unfolding write_frame
  write_each pipe [] = ok pipe
  write_each pipe ((tag, value) ∷ frames) = do
    written ← map_err write_error (write_frame write_all pipe tag value)
    write_each written frames

  unfoldable pub write_frames_to : SessionRefs Pipe → List (Text × Text) → Result SendError Pipe
  unfolding open_pipe write_each
  write_frames_to refs frames = do
    pipe ← open_pipe refs
    written ← write_each pipe frames
    map_err flush_error (flush written)

  module _ (serde : Serde) (to_string : serde.Value → Text) where
    -- `id` is the new UUID. The answer is the registry after the call with the pipe, or with the error.
    unfoldable pub send_cmd :
        Text → Text → Text → SessionRefs Pipe → PendingCommands × Result SendError Pipe
    unfolding write_frame_to payload_of Pending.insert Pending.remove
    send_cmd id name args refs =
        let pending = Pending.insert id name refs.pending_commands in
        elim (write_frame_to record refs { pending_commands = pending } tag_cmd_input
          (payload_of serde to_string id name args)) [
            | ok pipe ↦ (pending, ok pipe)
            | err e ↦ ((Pending.remove id pending).1, err e)
          ]
