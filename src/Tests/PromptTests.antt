-- ===== src/Tests/PromptTests.antt =====
-- A prompt with an image, with a printer that writes the same object for every content.
use alayaface.Prelude.{◌≡◌, refl, true, some, List, [], ◌∷◌, ◌++◌, Text, text_eq, codes, ok}
use alayaface.Json.{ContentData}
use alayaface.Pending
use alayaface.Sending.{SessionRefs}
use alayaface.Wire.{is_letter, max_frame_size, encode, write_frame}
use alayaface.Wire.Bytes.{position}
use alayaface.Wire.Utf8.{is_utf8}
use alayaface.Prompt.{MediaItem, send_prompt}
use alayaface.Prompt.Bursts.{AllFrames, ending, append, keep, ReadsAs, send_prompt-ReadsAs}

abbrev printer : ContentData → Text
printer d = codes "{}"

printer-is_utf8 : (d : ContentData) → is_utf8 (printer d) ≡ true
unfolding is_utf8
printer-is_utf8 d = refl

abbrev refs : SessionRefs Text
refs = record { stdin = some []; connected = true; pending_commands = Pending.new }

abbrev media : List MediaItem
media = record { media_type = codes "image"; media_uri = codes "data:x" } ∷ []

abbrev burst : Text
burst = codes "UX{}\nUX{}\nUE\n"

sent : send_prompt printer append keep (codes "hi") media refs ≡ ok burst
unfolding send_prompt write_frame encode is_letter position max_frame_size text_eq
sent = refl

send_prompt-ReadsAs_example :
    (frames : List (Text × Text)) × AllFrames printer media frames
    × (bytes : Text) × (burst ≡ [] ++ bytes)
    × ReadsAs bytes (frames ++ ending printer (codes "hi"))
send_prompt-ReadsAs_example =
    send_prompt-ReadsAs printer printer-is_utf8 (codes "hi") media refs [] burst refl sent
