-- ===== src/Sending/Registered.antt =====
-- What `send_cmd` of src-tauri/src/commands/mod.rs leaves in the registry of pending commands.
use alayaface.Prelude.{
  ◌≡◌, refl, ap, sym, ◌∙◌, none, some, Text, text_eq_refl, Result, ok, err, Result-cases, inl, inr,
}
use alayaface.Json.{Serde}
use alayaface.Wire.{WireError, tag_cmd_input}
use alayaface.Pending.{PendingCommands, insert, remove}
use alayaface.Pending.Steps.{IsConsistent, insert-IsConsistent, remove-IsConsistent}
use alayaface.Pending.History.{map-insert}
use alayaface.Sending.{SendError, SessionRefs, write_frame_to, payload_of, send_cmd}

registered :
    (id name : Text) (s : PendingCommands) → IsConsistent s → (insert id name s).map id ≡ some name
registered id name s c = map-insert id name s id c ∙ rw (text_eq_refl id) refl

forgotten : (id : Text) (s : PendingCommands) → (remove id s).1.map id ≡ none
unfolding remove
forgotten id s = rw (text_eq_refl id) refl

module _ {Pipe : Type 0} (write_all : Pipe → Text → Result WireError Pipe)
    (flush : Pipe → Result Text Pipe) (serde : Serde) (to_string : serde.Value → Text) where
  send_cmd_written :
      (id name args : Text) (refs : SessionRefs Pipe) (pipe : Pipe)
      → write_frame_to write_all flush
          record refs { pending_commands = insert id name refs.pending_commands }
          tag_cmd_input
          (payload_of serde to_string id name args)
        ≡ ok pipe
      → send_cmd write_all flush serde to_string id name args refs
        ≡ (insert id name refs.pending_commands, ok pipe)
  unfolding send_cmd
  send_cmd_written id name args refs pipe w = rw (send_cmd, w) refl

  send_cmd_failed :
      (id name args : Text) (refs : SessionRefs Pipe) (e : SendError)
      → write_frame_to write_all flush
          record refs { pending_commands = insert id name refs.pending_commands }
          tag_cmd_input
          (payload_of serde to_string id name args)
        ≡ err e
      → send_cmd write_all flush serde to_string id name args refs
        ≡ ((remove id (insert id name refs.pending_commands)).1, err e)
  unfolding send_cmd
  send_cmd_failed id name args refs e w = rw (send_cmd, w) refl

  -- A call on a consistent registry leaves it consistent. If it succeeds, its id has the name of the
  -- command, so that the reader can name the answer; if it fails, its id is not in the registry.
  pub send_cmd-registered :
      (id name args : Text) (refs : SessionRefs Pipe) (pending : PendingCommands)
      (answer : Result SendError Pipe)
      → IsConsistent refs.pending_commands
      → send_cmd write_all flush serde to_string id name args refs ≡ (pending, answer)
      → (pending.map id ≡ elim answer [ ok pipe ↦ some name | err e ↦ none ]) × IsConsistent pending
  send_cmd-registered id name args refs pending answer c h =
      let before = insert id name refs.pending_commands in
      let kept : IsConsistent before = insert-IsConsistent id name refs.pending_commands c in
      let sent =
        write_frame_to write_all flush record refs { pending_commands = before } tag_cmd_input
          (payload_of serde to_string id name args) in
      elim (Result-cases sent) [
        | inl (pipe, w) ↦
            let both : (pending, answer) ≡ (before, ok pipe) =
              sym h ∙ send_cmd_written id name args refs pipe w in
            let at : pending ≡ before = ap (λ p. p.0) both in
            let got : answer ≡ ok pipe = ap (λ p. p.1) both in
            rw (at, got) (registered id name refs.pending_commands c, kept)
        | inr (e, w) ↦
            let both : (pending, answer) ≡ ((remove id before).1, err e) =
              sym h ∙ send_cmd_failed id name args refs e w in
            let at : pending ≡ (remove id before).1 = ap (λ p. p.0) both in
            let got : answer ≡ err e = ap (λ p. p.1) both in
            rw (at, got) (forgotten id before, remove-IsConsistent id before kept)
      ]
