-- ===== src/Tests/SendingTests.antt =====
-- A command sent to a session, with the library of ToyJson; the pipe is a buffer.
use alayaface.Prelude.{false, ◌≡◌, refl, true, none, some, [], ◌++◌, Text, codes, Result, ok, err}
use alayaface.Wire.{WireError, encode, is_letter, max_frame_size}
use alayaface.Wire.Bytes.{position}
use alayaface.Pending.{new, insert}
use alayaface.Pending.Steps.{IsConsistent, new-IsConsistent}
use alayaface.Sending.{SendError, SessionRefs, send_cmd}
use alayaface.Sending.Registered.{send_cmd-registered}
use alayaface.Sending.Commands.{cancel, confirm, cmd_name, cmd_args, run_command}
use alayaface.Tests.ToyJson.{Toy, toy_json}

abbrev append : Text → Text → Result WireError Text
append pipe buf = ok (pipe ++ buf)

abbrev flush : Text → Result Text Text
flush pipe = ok pipe

abbrev print : Toy → Text
print v = codes "{}"

abbrev refs : SessionRefs Text
refs = record { stdin = some (codes "CI{}\n"); connected = true; pending_commands = new }

abbrev answer : Result SendError Text
answer = ok (codes "CI{}\nCI{}\n")

send_cmd-registered_example :
    ((insert (codes "x") (codes "cancel") new).map (codes "x")
      ≡ elim answer [ ok pipe ↦ some (codes "cancel") | err e ↦ none ])
    × IsConsistent (insert (codes "x") (codes "cancel") new)
unfolding send_cmd encode is_letter position max_frame_size
send_cmd-registered_example =
    send_cmd-registered append flush toy_json print (codes "x") (codes "cancel") [] refs
      (insert (codes "x") (codes "cancel") new) answer new-IsConsistent refl

-- What the client's confirmations and levels are to the core.
core_commands :
    (cmd_name (confirm (codes "t1") false) ≡ codes "tool_decline")
    × (cmd_args (confirm (codes "t1") false) ≡ codes "t1")
unfolding cmd_name cmd_args
core_commands = (refl, refl)

command_answer :
    run_command append flush toy_json print (codes "x") cancel refs
    ≡ (insert (codes "x") (codes "cancel") new, answer)
unfolding run_command send_cmd encode is_letter position max_frame_size
command_answer = refl
