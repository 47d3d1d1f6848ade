-- ===== src/Tests/ReaderTests.antt =====
-- The reader on a stream that a session writes, with the library of ToyJson.
use alayaface.Prelude.{
  Result, err, ◌≡◌, refl, true, false, some, List, [], ◌∷◌, ◌++◌, arith, Text, codes, text_eq, ok,
}
use alayaface.Wire.{
  Frame, WireError, available, Reader, encode, tag_cmd_output, tag_system_msg, is_letter,
  max_frame_size,
}
use alayaface.Wire.Utf8.{is_utf8}
use alayaface.Wire.Bytes.{position}
use alayaface.Pending
use alayaface.Pending.{PendingCommands}
use alayaface.Chars
use alayaface.Stderr.{pump}
use alayaface.Stderr.Window.{last_n, readable, reasons, pump-reasons}
use alayaface.Reader.{State, dispatch_frame, command_id_of}
use alayaface.Reader.Reports.{Reports, dispatch_frame-Reports}
use alayaface.Reader.Ending.{loop, hang_ups, IsOver, read_loop-IsOver}
use alayaface.Reader.Delivery.{encode_all, handled, read_loop-handled}
use alayaface.Tests.ToyJson.{Toy, toy_json, answer_text, answer_value, closing_text}

abbrev describe : WireError → Text
describe e = codes "?"

-- a line that is not text, and one behind it
abbrev stderr_lines : List (Result Text Text)
stderr_lines =
    ok (codes "starting")
    ∷ ok (codes "  ")
    ∷ ok (codes "Error: failed\r")
    ∷ err (codes "stream did not contain valid UTF-8")
    ∷ ok (codes "lost")
    ∷ []

abbrev sid : Text
sid = codes "s1"

abbrev answered_frame : Frame
answered_frame = record { tag = tag_cmd_output; value = answer_text }

abbrev closing_frame : Frame
closing_frame = record { tag = tag_system_msg; value = closing_text }

abbrev start : State Toy
start = record {
  models = [];
  pending = Pending.insert (codes "x") (codes "save") Pending.new;
  connected = true;
  has_child = true;
  events = [];
}

abbrev written : Text
written = codes "CO{\"command_id\":\"x\"}\nSM{\"type\":\"session\"}\n"

abbrev pieces : Reader
pieces =
    available (codes "CO{\"command_id\":\"x\"}\nSM{\"ty")
    ∷ available (codes "pe\":\"session\"}\n")
    ∷ []

encode_all-frames : encode_all (answered_frame ∷ closing_frame ∷ []) ≡ ok written
unfolding encode_all encode is_letter position max_frame_size
encode_all-frames = refl

answered_registered : start.pending.map (command_id_of toy_json answer_value) ≡ some (codes "save")
unfolding Pending.insert Pending.evict Pending.new text_eq
answered_registered = refl

pump-reasons_example : pump [] stderr_lines ≡ last_n 20 (reasons (readable stderr_lines))
pump-reasons_example = pump-reasons stderr_lines

dispatch_frame-Reports_example :
    Reports toy_json sid answered_frame start (dispatch_frame toy_json sid answered_frame start).1
dispatch_frame-Reports_example = dispatch_frame-Reports toy_json sid answered_frame start

read_loop-IsOver_example :
    (s' : State Toy) × (loop toy_json describe [] sid 100 false pieces start ≡ some s')
    × IsOver toy_json describe [] sid (hang_ups start.events) false s'
read_loop-IsOver_example =
    read_loop-IsOver toy_json describe [] sid 100 false pieces start (omega arith)

read_loop-handled_example :
    loop toy_json describe [] sid 3 false pieces start
    ≡ some (handled toy_json describe [] sid (answered_frame ∷ closing_frame ∷ []) false start)
unfolding is_utf8
read_loop-handled_example =
    read_loop-handled toy_json describe [] sid (answered_frame ∷ closing_frame ∷ []) written 3 false
      pieces start encode_all-frames (refl, (refl, tt)) tt refl (omega arith)

reasons-stderr_lines :
    reasons (readable stderr_lines) ≡ (codes "starting" ∷ []) ++ codes "Error: failed" ∷ []
unfolding reasons Chars.trim_end Chars.trim Chars.is_whitespace
reasons-stderr_lines = refl
