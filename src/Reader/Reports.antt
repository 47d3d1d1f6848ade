-- ===== src/Reader/Reports.antt =====
-- What one frame makes the reader emit.
use alayaface.Prelude.{
  ◌≡◌, refl, sym, Bool, true, false, List, [], ◌∷◌, ◌++◌, arith, Text, eq_of_text_eq, if◌then◌else◌,
  Option-cases, inl, inr,
}
use alayaface.Json.{Serde}
use alayaface.Wire.{Frame, tag_system_msg, tag_cmd_output, tag_assistant_x_delta}
use alayaface.Reader.{
  Event, delta, frame, status, State, emit_frame, forward, handle_delta_frame, handle_content_frame,
  handle_json_frame, handle_cmd_output_frame, handle_sm_frame, dispatch_frame, dispatch_arm, Arm,
  arm_of, content_delta, whole_content, function_json, cmd_output, system_msg, unknown, or_null,
  cached_models, typed_content,
}

-- The tags of three arms.
arm_of_delta : (tag : Text) → arm_of tag ≡ content_delta → tag ≡ tag_assistant_x_delta
unfolding arm_of
arm_of_delta tag h = eq_of_text_eq tag tag_assistant_x_delta (ground arith)

arm_of_output : (tag : Text) → arm_of tag ≡ cmd_output → tag ≡ tag_cmd_output
unfolding arm_of
arm_of_output tag h = eq_of_text_eq tag tag_cmd_output (ground arith)

pub arm_of_system : (tag : Text) → arm_of tag ≡ system_msg → tag ≡ tag_system_msg
unfolding arm_of
arm_of_system tag h = eq_of_text_eq tag tag_system_msg (ground arith)

module _ (J : Serde) where
  open J use {
    Value, from_str, envelope, get, string, is_object, as_str, get-insert_self, get-insert_ne,
  }

  -- The event tells of this frame, in this session: its tag, and the whole value unless it is a
  -- delta that could be decoded.
  abbrev pub IsReport : Text → Frame → Event Value → Type 0
  IsReport sid f (delta d) =
      (d.session_id ≡ sid) × (d.tag ≡ f.tag) × (f.tag ≡ tag_assistant_x_delta)
  IsReport sid f (frame e) = (e.session_id ≡ sid) × (e.tag ≡ f.tag) × (e.raw_value ≡ f.value)
  IsReport sid f (status e) = ⊥

  -- The state differs from the old one by one report, in the registry and in the models.
  pub record Reports (sid : Text) (f : Frame) (s s' : State Value) : Type 0 where
    pub event : Event Value
    pub report : IsReport sid f event
    pub events : s'.events ≡ s.events ++ event ∷ []
    pub connected : s'.connected ≡ s.connected
    pub has_child : s'.has_child ≡ s.has_child

  module _ (sid : Text) (f : Frame) (s : State Value) where
    either :
        (b : Bool) {x y : State Value}
        → Reports sid f s x
        → Reports sid f s y
        → Reports sid f s (if b then x else y)
    either true hx hy = hx
    either false hx hy = hy

    forward-Reports : Reports sid f s (forward J sid f.tag f.value s)
    unfolding forward
    forward-Reports = record {
      event = _;
      report = (refl, refl, refl);
      events = refl;
      connected = refl;
      has_child = refl;
    }

    handle_json_frame-Reports : Reports sid f s (handle_json_frame J sid f.tag f.value s)
    unfolding handle_json_frame
    handle_json_frame-Reports = record {
      event = _;
      report = (refl, refl, refl);
      events = refl;
      connected = refl;
      has_child = refl;
    }

    handle_delta_frame-Reports :
        f.tag ≡ tag_assistant_x_delta → Reports sid f s (handle_delta_frame J sid f.tag f.value s)
    unfolding handle_delta_frame
    handle_delta_frame-Reports e = elim (Option-cases (typed_content J f.value)) [
      | inl n ↦ rw (handle_delta_frame, n) forward-Reports
      | inr (d, n) ↦
          rw (handle_delta_frame, n)
            (record {
              event = _;
              report = (refl, refl, e);
              events = refl;
              connected = refl;
              has_child = refl;
            })
    ]

    handle_content_frame-Reports : Reports sid f s (handle_content_frame J sid f.tag f.value s)
    unfolding handle_content_frame emit_frame
    handle_content_frame-Reports = elim (Option-cases (typed_content J f.value)) [
      | inl n ↦ rw (handle_content_frame, n) forward-Reports
      | inr (d, n) ↦
          rw (handle_content_frame, n)
            (record {
              event = _;
              report = (refl, refl, refl);
              events = refl;
              connected = refl;
              has_child = refl;
            })
    ]

    -- The tag of the event is the constant, which is the frame's tag on this branch.
    handle_cmd_output_frame-Reports :
        f.tag ≡ tag_cmd_output → Reports sid f s (handle_cmd_output_frame J sid f.value s)
    unfolding handle_cmd_output_frame
    handle_cmd_output_frame-Reports e =
        either (is_object (or_null J (from_str f.value)))
          (record {
            event = _;
            report = (refl, sym e, refl);
            events = refl;
            connected = refl;
            has_child = refl;
          })
          (record {
            event = _;
            report = (refl, sym e, refl);
            events = refl;
            connected = refl;
            has_child = refl;
          })

    handle_sm_frame-Reports :
        f.tag ≡ tag_system_msg → Reports sid f s (handle_sm_frame J sid f.value s).1
    unfolding handle_sm_frame
    handle_sm_frame-Reports e = record {
      event = _;
      report = (refl, sym e, refl);
      events = refl;
      connected = refl;
      has_child = refl;
    }

    with_models :
        (models : List Value) (s' : State Value)
        → Reports sid f (record s { models = models }) s'
        → Reports sid f s s'
    with_models models s' r = record {
      event = r.event;
      report = r.report;
      events = r.events;
      connected = r.connected;
      has_child = r.has_child;
    }

  dispatch_arm-Reports :
      (sid : Text) (f : Frame) (s : State Value) (arm : Arm)
      → arm_of f.tag ≡ arm
      → Reports sid f s (dispatch_arm J arm sid f s).1
  unfolding dispatch_arm
  dispatch_arm-Reports sid f s content_delta e =
      handle_delta_frame-Reports sid f s (arm_of_delta f.tag e)
  dispatch_arm-Reports sid f s whole_content e = handle_content_frame-Reports sid f s
  dispatch_arm-Reports sid f s function_json e = handle_json_frame-Reports sid f s
  dispatch_arm-Reports sid f s cmd_output e =
      handle_cmd_output_frame-Reports sid f s (arm_of_output f.tag e)
  dispatch_arm-Reports sid f s system_msg e =
      handle_sm_frame-Reports sid f s (arm_of_system f.tag e)
  dispatch_arm-Reports sid f s unknown e = forward-Reports sid f s

  -- Every frame that is dispatched makes the reader emit exactly one event, which is about that
  -- frame; no frame is dropped, malformed ones included, and none changes the connection.
  pub dispatch_frame-Reports :
      (sid : Text) (f : Frame) (s : State Value) → Reports sid f s (dispatch_frame J sid f s).1
  unfolding dispatch_frame
  dispatch_frame-Reports sid f s =
      let models = cached_models J f s.models in
      with_models sid f s models _
        (dispatch_arm-Reports sid f (record s { models = models }) (arm_of f.tag) refl)
