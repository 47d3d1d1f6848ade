-- ===== src/Reader/Ending.antt =====
-- The reader's loop ends, and tells the client exactly once that the session is over.
use alayaface.Prelude.{
  ℕ, zero, suc, ◌+◌, ◌<◌, ◌≡◌, refl, ap, ◌∙◌, Bool, true, false, not, ◌&&◌, ◌||◌, Option, none,
  some, List, [], ◌∷◌, ◌++◌, arith, Text, codes, if◌then◌else◌, Result, ok, err,
}
use alayaface.Json.{Serde}
use alayaface.Wire.{Frame, WireError, Reader, read_frame}
use alayaface.Wire.Progress.{size, read_frame-size}
use alayaface.Reader.{
  Event, delta, frame, status, State, session_closed_message, emit, disconnected, dispatch_frame,
  hang_up, read_loop,
}
use alayaface.Reader.Reports.{IsReport, dispatch_frame-Reports}

-- How many events tell the client that the session is not connected.
abbrev pub hang_ups : {V : Type 0} → List (Event V) → ℕ
hang_ups [] = 0
hang_ups (delta d ∷ events) = hang_ups events
hang_ups (frame e ∷ events) = hang_ups events
hang_ups (status e ∷ events) = if e.connected then hang_ups events else suc (hang_ups events)

hang_ups-append :
    {V : Type 0} (xs ys : List (Event V)) → hang_ups (xs ++ ys) ≡ hang_ups xs + hang_ups ys
hang_ups-append [] ys = omega arith
hang_ups-append (delta d ∷ xs) ys = hang_ups-append xs ys
hang_ups-append (frame e ∷ xs) ys = hang_ups-append xs ys
hang_ups-append (status e ∷ xs) ys = ground (arith, hang_ups-append xs ys)

module _ (J : Serde) (describe : WireError → Text) (tail : List Text) (sid : Text) where
  open J use {Value}

  abbrev pub loop : ℕ → Bool → Reader → State Value → Option (State Value)
  loop fuel = read_loop J fuel describe tail sid

  -- the state behind one frame
  abbrev pub after : Bool → Frame → State Value → State Value
  after announced f s =
      let (ended, s') = dispatch_frame J sid f s in
      if ended && not announced then emit (disconnected J sid session_closed_message) s' else s'

  module _ (fuel : ℕ) (announced : Bool) (reader : Reader) (s : State Value) where
    pub loop-none :
        (read_frame reader).0 ≡ ok none
        → loop (suc fuel) announced reader s
          ≡ some (hang_up J sid (codes "Connection closed") tail announced s)
    unfolding read_loop
    loop-none e = rw (read_loop, e)

    pub loop_err :
        (why : WireError)
        → (read_frame reader).0 ≡ err why
        → loop (suc fuel) announced reader s
          ≡ some (hang_up J sid (codes "Read error: " ++ describe why) tail announced s)
    unfolding read_loop
    loop_err why e = rw (read_loop, e)

    pub loop_frame :
        (f : Frame)
        → (read_frame reader).0 ≡ ok (some f)
        → loop (suc fuel) announced reader s
          ≡ loop fuel
              (announced || (dispatch_frame J sid f s).0)
              (read_frame reader).1
              (after announced f s)
    unfolding read_loop
    loop_frame f e = rw (read_loop, e)

  -- What holds of the state when the loop ends.
  pub record IsOver (before : ℕ) (announced : Bool) (s : State Value) : Type 0 where
    pub disconnected_now : s.connected ≡ false
    pub reaped : s.has_child ≡ false
    pub told_once : hang_ups s.events ≡ before + (if announced then 0 else 1)

  hang_up-IsOver :
      (base : Text) (announced : Bool) (s : State Value)
      → IsOver (hang_ups s.events) announced (hang_up J sid base tail announced s)
  unfolding hang_up
  hang_up-IsOver base true s = record {
    disconnected_now = refl;
    reaped = refl;
    told_once = omega arith;
  }
  hang_up-IsOver base false s = record {
    disconnected_now = refl;
    reaped = refl;
    told_once = hang_ups-append s.events _;
  }

  report_silent : (f : Frame) (e : Event Value) → IsReport J sid f e → hang_ups (e ∷ []) ≡ 0
  report_silent f (delta d) r = refl
  report_silent f (frame e) r = refl
  report_silent f (status e) r = absurd r

  dispatch_silent :
      (f : Frame) (s : State Value)
      → hang_ups (dispatch_frame J sid f s).1.events ≡ hang_ups s.events
  dispatch_silent f s =
      let r = dispatch_frame-Reports J sid f s in
      ap hang_ups r.events
      ∙ hang_ups-append s.events (r.event ∷ [])
      ∙ omega (arith, report_silent f r.event r.report)

  after-hang_ups :
      (announced : Bool) (f : Frame) (s : State Value)
      → hang_ups (after announced f s).events
          + (if announced || (dispatch_frame J sid f s).0 then 0 else 1)
        ≡ hang_ups s.events + (if announced then 0 else 1)
  after-hang_ups announced f s =
      told announced (dispatch_frame J sid f s).0 (dispatch_frame J sid f s).1
      ∙ ap (λ n. n + (if announced then 0 else 1)) (dispatch_silent f s)
    where
      told :
          (announced ended : Bool) (s' : State Value)
          → hang_ups
                (if ended && not announced
                  then emit (disconnected J sid session_closed_message) s'
                  else s').events
              + (if announced || ended then 0 else 1)
            ≡ hang_ups s'.events + (if announced then 0 else 1)
      told true true s' = refl
      told true false s' = refl
      told false false s' = refl
      told false true s' =
          omega (arith, hang_ups-append s'.events (disconnected J sid session_closed_message ∷ []))

  -- With fuel above the size of the stream the loop ends, whatever the stream holds: malformed
  -- frames, failing reads, or an end inside a frame. The session is then disconnected, its process
  -- is reaped, and the client has been told so exactly once, also where the core announced its end.
  pub read_loop-IsOver :
      (fuel : ℕ) (announced : Bool) (reader : Reader) (s : State Value)
      → size reader < fuel
      → (s' : State Value) × (loop fuel announced reader s ≡ some s')
        × IsOver (hang_ups s.events) announced s'
  read_loop-IsOver zero announced reader s h = absurd (omega arith)
  read_loop-IsOver (suc fuel) announced reader s h = by_result (read_frame reader).0 refl (λ f.
      read_loop-IsOver fuel (announced || (dispatch_frame J sid f s).0) (read_frame reader).1
        (after announced f s))
    where
      by_result :
          (r : Result WireError (Option Frame))
          → (read_frame reader).0 ≡ r
          → ((f : Frame)
              → size (read_frame reader).1 < fuel
              → (s' : State Value) × (loop fuel
                    (announced || (dispatch_frame J sid f s).0)
                    (read_frame reader).1
                    (after announced f s)
                  ≡ some s')
                × IsOver
                    (hang_ups (after announced f s).events)
                    (announced || (dispatch_frame J sid f s).0)
                    s')
          → (s' : State Value) × (loop (suc fuel) announced reader s ≡ some s')
            × IsOver (hang_ups s.events) announced s'
      by_result (ok none) e rest =
          (_, loop-none fuel announced reader s e, hang_up-IsOver _ announced s)
      by_result (err why) e rest =
          (_, loop_err fuel announced reader s why e, hang_up-IsOver _ announced s)
      by_result (ok (some f)) e rest =
          let less = read_frame-size reader f e in
          let (s', runs, over) = rest f (omega (arith, less, h)) in
          (
            s',
            loop_frame fuel announced reader s f e ∙ runs,
            record {
              disconnected_now = over.disconnected_now;
              reaped = over.reaped;
              told_once = over.told_once ∙ after-hang_ups announced f s;
            },
          )
