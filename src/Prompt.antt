-- ===== src/Prompt.antt =====
-- The prompt of a user: `alayacore_send_prompt` of src-tauri/src/commands/io.rs, on a session that was
-- found. Texts are their UTF-8 bytes here, as on the wire.
pub mod Bursts
use alayaface.Prelude.{
  Bool, not, ◌||◌, List, [], ◌∷◌, ◌++◌, Text, codes, text_eq, is_empty, if◌then◌else◌, Result, ok,
  err, map_err, ◌>>=◌,
}
use alayaface.Json.{ContentData}
use alayaface.Sending.{SendError, SessionRefs, write_frames_to}
use alayaface.Wire.{WireError, tag_user_x, tag_user_end}

pub record MediaItem : Type 0 where
  pub media_type : Text
  pub media_uri : Text

pub data PromptError : Type 0 where
  unknown_media : Text → PromptError
  not_sent : SendError → PromptError

unfoldable pub is_media_type : Text → Bool
is_media_type t =
    text_eq t (codes "image")
    || text_eq t (codes "audio")
    || text_eq t (codes "video")
    || text_eq t (codes "document")

-- a content item with the defaults in its other fields
abbrev pub content : Text → Text → Text → ContentData
content kind text uri = record {
  meta = record { id = []; time = [] };
  item = record { kind = kind; text = text; uri = uri };
}

module _ (to_string : ContentData → Text) where
  -- the loop over the media
  unfoldable pub media_frames : List MediaItem → Result PromptError (List (Text × Text))
  unfolding is_media_type
  media_frames [] = ok []
  media_frames (item ∷ media) =
      let rest = media_frames media in
      if not (is_media_type item.media_type) then err (unknown_media item.media_type) else do
        frames ← rest
        ok ((tag_user_x, to_string (content item.media_type [] item.media_uri)) ∷ frames)

  unfoldable pub text_frames : Text → List (Text × Text)
  text_frames text =
      if is_empty text then [] else (tag_user_x, to_string (content (codes "text") text [])) ∷ []

  unfoldable pub prompt_frames : Text → List MediaItem → Result PromptError (List (Text × Text))
  unfolding media_frames text_frames
  prompt_frames text media = do
    frames ← media_frames media
    ok (frames ++ text_frames text ++ (tag_user_end, []) ∷ [])

  unfoldable pub send_prompt :
      {Pipe : Type 0}
      → (Pipe → Text → Result WireError Pipe)
      → (Pipe → Result Text Pipe)
      → Text
      → List MediaItem
      → SessionRefs Pipe
      → Result PromptError Pipe
  unfolding prompt_frames write_frames_to
  send_prompt write_all flush text media refs = do
    frames ← prompt_frames text media
    map_err not_sent (write_frames_to write_all flush refs frames)
