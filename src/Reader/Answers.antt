-- ===== src/Reader/Answers.antt =====
-- The answer of a command gets the name of the command, and the end of a session is recognised.
use alayaface.Prelude.{
  ◌≡◌, ◌↔◌, refl, ap, ap₂, and_left, and_right, ◌∙◌, true, ◌&&◌, Option, none, some, [], ◌∷◌, ◌++◌,
  Text, codes, text_eq, eq_of_text_eq, if◌then◌else◌,
}
use alayaface.Json.{Serde, SystemMsgEnvelope}
use alayaface.Wire.{Frame, tag_system_msg, tag_cmd_output}
use alayaface.Pending
use alayaface.Pending.{put, PendingCommands}
use alayaface.Reader.{
  Event, frame, State, handle_cmd_output_frame, answer_with, or_null, dispatch_frame, dispatch_arm,
  Arm, arm_of, system_msg, command_id_of, cached_models, state_of, is_closed, ended_by,
}
use alayaface.Reader.Reports.{arm_of_system}

module _ (J : Serde) where
  open J use {
    Value, from_str, envelope, get, insert, string, is_object, as_str, get-insert_self,
    get-insert_ne,
  }

  -- The event that a CO frame becomes.
  abbrev pub answer : Text → Text → Value → Event Value
  answer sid raw v = frame (record {
    session_id = sid;
    tag = tag_cmd_output;
    raw_value = raw;
    history_id = none;
    content = some raw;
    json = some v;
    content_type = none;
  })

  module _ (sid raw : Text) (s : State Value) (v : Value) (name : Text) where
    -- A CO frame whose id is registered is emitted with the name of its command as one more field
    -- of its JSON. Its id is no longer registered, and every other id is as it was.
    pub handle_cmd_output_frame-named :
        (j : Text)
        → from_str raw ≡ some v
        → is_object v ≡ true
        → s.pending.map (command_id_of J v) ≡ some name
        → ((handle_cmd_output_frame J sid raw s).events
            ≡ s.events ++ answer sid raw (insert v (codes "name") (string name)) ∷ [])
          × ((handle_cmd_output_frame J sid raw s).pending.map j
              ≡ (if text_eq (command_id_of J v) j then none else s.pending.map j))
    unfolding handle_cmd_output_frame Pending.remove
    handle_cmd_output_frame-named j parsed object found =
        let read : or_null J (from_str raw) ≡ v = ap (or_null J) parsed in
        (
          ap (λ w. (answer_with J w sid raw s).events) read ∙ rw (answer_with, object, found),
          ap (λ w. (answer_with J w sid raw s).pending.map j) read ∙ rw (answer_with, object),
        )

  -- The frame that ends a session, by its payload.
  pub record IsClosing (f : Frame) : Type 0 where
    pub env : SystemMsgEnvelope Value
    pub tag : f.tag ≡ tag_system_msg
    pub decoded : envelope f.value ≡ some env
    pub session : env.msg_type ≡ codes "session"
    pub closed : state_of J env.body ≡ some (codes "closed")

  is_closed_iff : (o : Option Text) → is_closed J o ≡ true → o ≡ some (codes "closed")
  is_closed_iff none h = cc
  is_closed_iff (some state) h = ap some (eq_of_text_eq state (codes "closed") h)

  IsClosing-system :
      (f : Frame) (o : Option (SystemMsgEnvelope Value))
      → f.tag ≡ tag_system_msg
      → envelope f.value ≡ o
      → ended_by J o ≡ true
      → IsClosing f
  unfolding ended_by
  IsClosing-system f none is e h = cc
  IsClosing-system f (some env) is e h = record {
    env = env;
    tag = is;
    decoded = e;
    session = eq_of_text_eq env.msg_type (codes "session") (and_left _ _ h);
    closed = is_closed_iff (state_of J env.body) (and_right _ _ h);
  }

  ended_by_closing :
      (env : SystemMsgEnvelope Value)
      → env.msg_type ≡ codes "session"
      → state_of J env.body ≡ some (codes "closed")
      → ended_by J (some env) ≡ true
  unfolding ended_by
  ended_by_closing env m st =
      ap₂ (λ a o. text_eq a (codes "session") && is_closed J o) m st ∙ (unfold text_eq in refl)

  module _ (sid : Text) (f : Frame) (s : State Value) where
    IsClosing-arm :
        (arm : Arm) → arm_of f.tag ≡ arm → (dispatch_arm J arm sid f s).0 ≡ true → IsClosing f
    unfolding dispatch_arm
    IsClosing-arm system_msg e h =
        IsClosing-system f (envelope f.value) (arm_of_system f.tag e) refl h
    IsClosing-arm _ e h = cc

  arm_of-system : arm_of tag_system_msg ≡ system_msg
  unfolding arm_of text_eq
  arm_of-system = refl

  -- A frame ends the session exactly if it is a system message that says that the session's state
  -- is closed.
  pub dispatch_frame-IsClosing :
      (sid : Text) (f : Frame) (s : State Value)
      → ((dispatch_frame J sid f s).0 ≡ true) ↔ IsClosing f
  unfolding dispatch_frame
  dispatch_frame-IsClosing sid f s = (
    IsClosing-arm sid f _ (arm_of f.tag) refl,
    λ c.
        ap (λ arm. (dispatch_arm J arm sid f (record s { models = cached_models J f s.models })).0)
          (ap arm_of c.tag ∙ arm_of-system)
        ∙ ap (ended_by J) c.decoded
        ∙ ended_by_closing c.env c.session c.closed,
  )
