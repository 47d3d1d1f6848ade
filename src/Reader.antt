-- ===== src/Reader.antt =====
-- src-tauri/src/reader.rs, with the events of src-tauri/src/event.rs and the model cache of
-- src-tauri/src/lib.rs: the thread that reads a session's frames and emits them to the client.
-- Logging is left out, and emitting cannot fail, since the code drops the result of `emit`.
pub mod Reports
pub mod Delivery
pub mod Answers
pub mod Ending
use alayaface.Prelude.{
  ℕ, zero, suc, ◌+◌, ◌-◌, Bool, true, false, not, ◌&&◌, ◌||◌, Option, none, some, and_then, List,
  [], ◌∷◌, ◌++◌, Text, codes, text_eq, length, take, is_empty, leb, if◌then◌else◌, Result, ok, err,
}
use alayaface.Json.{Serde, ContentData, SystemMsgEnvelope}
use alayaface.Wire.{
  Frame, WireError, Reader, read_frame, tag_user_x, tag_assistant_x, tag_assistant_f, tag_user_f,
  tag_system_msg, tag_cmd_output, tag_assistant_x_delta, tag_assistant_f_delta, tag_user_f_delta,
}
use alayaface.Pending
use alayaface.Pending.{PendingCommands}
use alayaface.Stderr.{disconnect_message}

pub record DeltaEvent : Type 0 where
  pub session_id : Text
  pub history_id : Text
  pub content : Text
  pub tag : Text
  pub content_type : Text

pub record FrameEvent (Value : Type 0) : Type 0 where
  pub session_id : Text
  pub tag : Text
  pub raw_value : Text
  pub history_id : Option Text
  pub content : Option Text
  pub json : Option Value
  pub content_type : Option Text

pub record StatusEvent : Type 0 where
  pub session_id : Text
  pub connected : Bool
  pub message : Text

-- the channels `tlv-delta`, `tlv-frame` and `core-status`
pub data Event (Value : Type 0) : Type 0 where
  delta : DeltaEvent → Event Value
  frame : FrameEvent Value → Event Value
  status : StatusEvent → Event Value

-- What the thread shares with the rest of the backend, and what it has emitted. `has_child` is the
-- slot that holds the process until it is reaped.
pub record State (Value : Type 0) : Type 0 where
  pub models : List Value
  pub pending : PendingCommands
  pub connected : Bool
  pub has_child : Bool
  pub events : List (Event Value)

abbrev pub session_closed_message : Text
session_closed_message = codes "Session closed by alayacore"

abbrev pub emit : {V : Type 0} → Event V → State V → State V
emit e s = record s { events = s.events ++ e ∷ [] }

-- `(!s.is_empty()).then(..)`, also as `filter(|s| !s.is_empty())`
abbrev pub non_empty : Text → Option Text
non_empty t = if is_empty t then none else some t

pub data Arm : Type 0 where
  content_delta whole_content function_json cmd_output system_msg unknown : Arm

-- which arm of the `match` on the tag takes a frame
unfoldable pub arm_of : Text → Arm
arm_of tag =
    if text_eq tag tag_assistant_x_delta
    then content_delta
    else if text_eq tag tag_assistant_x || text_eq tag tag_user_x
    then whole_content
    else if text_eq tag tag_assistant_f_delta
        || text_eq tag tag_assistant_f
        || text_eq tag tag_user_f
        || text_eq tag tag_user_f_delta
    then function_json
    else if text_eq tag tag_cmd_output
    then cmd_output
    else if text_eq tag tag_system_msg
    then system_msg
    else unknown

module _ (J : Serde) where
  open J use {
    Value, from_str, content_data, envelope, null, is_null, string, object, as_str, as_array,
    is_object, get, insert,
  }

  -- the session id, the tag and the value of a frame stand before what `emit_frame` attaches
  unfoldable pub emit_frame :
      Text
      → Text
      → Text
      → Option Value
      → Option Text
      → Option Text
      → Option Text
      → State Value
      → State Value
  emit_frame sid tag raw json content history_id content_type = emit (
      Event.frame (record {
        session_id = sid;
        tag = tag;
        raw_value = raw;
        history_id = history_id;
        content = content;
        json = json;
        content_type = content_type;
      }))

  -- a frame that is forwarded as it came
  unfoldable pub forward : Text → Text → Text → State Value → State Value
  unfolding emit_frame
  forward sid tag raw = emit_frame sid tag raw (from_str raw) (some raw) none none

  -- the guard `Ok(d) if !d.item.kind.is_empty()`
  unfoldable pub typed_content : Text → Option ContentData
  typed_content raw = elim (content_data raw) [
    | none ↦ none
    | some d ↦ if is_empty d.item.kind then none else some d
  ]

  unfoldable pub handle_delta_frame : Text → Text → Text → State Value → State Value
  unfolding forward typed_content
  handle_delta_frame sid tag raw s = elim (typed_content raw) [
    | none ↦ forward sid tag raw s
    | some d ↦
        emit
          (delta (record {
            session_id = sid;
            history_id = d.meta.id;
            content = d.item.text;
            tag = tag;
            content_type = d.item.kind;
          }))
          s
  ]

  abbrev pub content_of : ContentData → Text
  content_of d =
      if text_eq d.item.kind (codes "text") || text_eq d.item.kind (codes "reasoning")
      then d.item.text
      else d.item.uri

  unfoldable pub handle_content_frame : Text → Text → Text → State Value → State Value
  unfolding forward typed_content
  handle_content_frame sid tag raw s = elim (typed_content raw) [
    | none ↦ forward sid tag raw s
    | some d ↦
        emit_frame sid tag raw (from_str raw) (some (content_of d)) (non_empty d.meta.id)
          (some d.item.kind) s
  ]

  -- the history id at the top level of a JSON frame
  abbrev pub history_id_of : Option Value → Option Text
  history_id_of json =
      and_then (and_then (and_then json (λ v. get v (codes "id"))) as_str) non_empty

  unfoldable pub handle_json_frame : Text → Text → Text → State Value → State Value
  unfolding emit_frame
  handle_json_frame sid tag raw =
      emit_frame sid tag raw (from_str raw) (some raw) (history_id_of (from_str raw)) none

  abbrev pub or_null : Option Value → Value
  or_null none = null
  or_null (some v) = v

  -- `obj.get("command_id").and_then(as_str).unwrap_or("")`
  abbrev pub command_id_of : Value → Text
  command_id_of v = elim (and_then (get v (codes "command_id")) as_str) [ none ↦ [] | some id ↦ id ]

  -- the name of the command that a CO frame answers goes from the registry into its JSON
  unfoldable pub answer_with : Value → Text → Text → State Value → State Value
  unfolding emit_frame
  answer_with v sid raw s =
      if is_object v
      then (let (name, pending) = Pending.remove (command_id_of v) s.pending in
          let named : Value = elim name [
            | none ↦ v
            | some n ↦ insert v (codes "name") (string n)
          ] in
          emit_frame sid tag_cmd_output raw (some named) (some raw) none none
            (record s { pending = pending }))
      else emit_frame sid tag_cmd_output raw (some v) (some raw) none none s

  unfoldable pub handle_cmd_output_frame : Text → Text → State Value → State Value
  unfolding answer_with
  handle_cmd_output_frame sid raw = answer_with (or_null (from_str raw)) sid raw

  -- the text of `data.state`, and whether it is "closed"
  abbrev pub state_of : Value → Option Text
  state_of body = and_then (get body (codes "state")) as_str

  abbrev pub is_closed : Option Text → Bool
  is_closed none = false
  is_closed (some state) = text_eq state (codes "closed")

  unfoldable pub ends_the_session : Text → Value → Bool
  ends_the_session msg_type body = text_eq msg_type (codes "session") && is_closed (state_of body)

  -- the second half of the pair that `handle_sm_frame` matches out
  unfoldable pub ended_by : Option (SystemMsgEnvelope Value) → Bool
  unfolding ends_the_session
  ended_by none = false
  ended_by (some env) = ends_the_session env.msg_type env.body

  abbrev pub system_json : SystemMsgEnvelope Value → Value
  system_json env = object ((codes "type", string env.msg_type) ∷ (codes "data", env.body) ∷ [])

  unfoldable pub handle_sm_frame : Text → Text → State Value → Bool × State Value
  unfolding emit_frame ended_by
  handle_sm_frame sid raw s =
      let json : Value = elim (envelope raw) [ none ↦ null | some env ↦ system_json env ] in
      (
        ended_by (envelope raw),
        emit_frame sid tag_system_msg raw (if is_null json then none else some json) (some raw) none
            none s,
      )

  -- the models that an SM frame lists, which the cache takes before the frame is dispatched
  unfoldable pub cached_models : Frame → List Value → List Value
  cached_models f models =
      if text_eq f.tag tag_system_msg
      then elim (envelope f.value) [
        | none ↦ models
        | some env ↦
            if text_eq env.msg_type (codes "model_list")
            then elim (and_then (get env.body (codes "models")) as_array) [
              | none ↦ models
              | some listed ↦ listed
            ]
            else models
      ]
      else models

  -- the arms of `match tag.as_str()`
  unfoldable pub dispatch_arm : Arm → Text → Frame → State Value → Bool × State Value
  unfolding handle_delta_frame handle_content_frame handle_json_frame handle_cmd_output_frame
      handle_sm_frame forward
  dispatch_arm content_delta sid f s = (false, handle_delta_frame sid f.tag f.value s)
  dispatch_arm whole_content sid f s = (false, handle_content_frame sid f.tag f.value s)
  dispatch_arm function_json sid f s = (false, handle_json_frame sid f.tag f.value s)
  dispatch_arm cmd_output sid f s = (false, handle_cmd_output_frame sid f.value s)
  dispatch_arm system_msg sid f s = handle_sm_frame sid f.value s
  dispatch_arm unknown sid f s = (false, forward sid f.tag f.value s)

  unfoldable pub dispatch_frame : Text → Frame → State Value → Bool × State Value
  unfolding cached_models arm_of dispatch_arm
  dispatch_frame sid f s =
      dispatch_arm (arm_of f.tag) sid f (record s { models = cached_models f s.models })

  abbrev pub disconnected : Text → Text → Event Value
  disconnected sid message =
      status (record { session_id = sid; connected = false; message = message })

  -- the arms `Ok(None)` and `Err(e)` of the loop, with the base of their messages
  unfoldable pub hang_up : Text → Text → List Text → Bool → State Value → State Value
  hang_up sid base stderr_tail announced s0 =
      let s = record s0 { connected = false; has_child = false } in
      if announced then s else emit (disconnected sid (disconnect_message base stderr_tail)) s

  -- The loop of `spawn_stdout_reader`; `none` means that the fuel ran out. `describe` is the display
  -- of a read error, and `stderr_tail` what the pump had collected when the loop ended.
  unfoldable pub read_loop :
      ℕ → (WireError → Text) → List Text → Text → Bool → Reader → State Value → Option (State Value)
  unfolding dispatch_frame hang_up read_frame
  read_loop zero describe stderr_tail sid announced reader s = none
  read_loop (suc fuel) describe stderr_tail sid announced reader s =
      let (result, rest) = read_frame reader in
      elim result [
        | ok found ↦ elim found [
          | none ↦ some (hang_up sid (codes "Connection closed") stderr_tail announced s)
          | some f ↦
              let (ended, s') = dispatch_frame sid f s in
              let announce = ended && not announced in
              read_loop fuel describe stderr_tail sid (announced || ended) rest
                (if announce then emit (disconnected sid session_closed_message) s' else s')
        ]
        | err e ↦ some (hang_up sid (codes "Read error: " ++ describe e) stderr_tail announced s)
      ]
