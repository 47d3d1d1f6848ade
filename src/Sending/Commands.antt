-- ===== src/Sending/Commands.antt =====
-- The commands of the client that are one command of the core: src-tauri/src/commands/cmd.rs, with the
-- `send_cmd!` macro of src-tauri/src/commands/mod.rs.
use alayaface.Prelude.{ℕ, Bool, [], Text, codes, if◌then◌else◌, Result}
use alayaface.Chars.{decimal}
use alayaface.Json.{Serde}
use alayaface.Wire.{WireError}
use alayaface.Pending.{PendingCommands}
use alayaface.Sending.{SendError, SessionRefs, send_cmd}

pub data Command : Type 0 where
  cancel : Command
  reason : ℕ → Command
  model_set : ℕ → Command
  model_sync : Text → Command
  confirm : Text → Bool → Command
  mcp_decline : Text → Command
  mcp_cancel : Command

unfoldable pub cmd_name : Command → Text
cmd_name cancel = codes "cancel"
cmd_name (reason level) = codes "reasoning_level_set"
cmd_name (model_set model_id) = codes "model_set"
cmd_name (model_sync config) = codes "model_sync"
cmd_name (confirm id allowed) = if allowed then codes "tool_confirm" else codes "tool_decline"
cmd_name (mcp_decline server) = codes "mcp_decline"
cmd_name mcp_cancel = codes "mcp_skip"

unfoldable pub cmd_args : Command → Text
unfolding decimal
cmd_args cancel = []
cmd_args (reason level) = decimal level
cmd_args (model_set model_id) = decimal model_id
cmd_args (model_sync config) = config
cmd_args (confirm id allowed) = id
cmd_args (mcp_decline server) = server
cmd_args mcp_cancel = []

module _ {Pipe : Type 0} (write_all : Pipe → Text → Result WireError Pipe)
    (flush : Pipe → Result Text Pipe) (serde : Serde) (to_string : serde.Value → Text) where
  -- A command with a new id, on a session that was found.
  unfoldable pub run_command :
      Text → Command → SessionRefs Pipe → PendingCommands × Result SendError Pipe
  unfolding send_cmd cmd_name cmd_args
  run_command id command refs =
      send_cmd write_all flush serde to_string id (cmd_name command) (cmd_args command) refs
