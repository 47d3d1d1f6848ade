-- ===== src/Prompt/Bursts.antt =====
-- What a prompt writes, and how it reads back.
use alayaface.Prelude.{
  ◌⊎◌, text_eq, eq_of_text_eq, ◌≡◌, refl, sym, ap, subst, ◌∙◌, Bool, true, not, some, List, [], ◌∷◌,
  ◌++◌, append-nil, append_assoc, Text, codes, all, and_left, and_right, Result, ok, err, map_err,
  ◌>>=◌, ok_of_bind, same_ok, inl, inr, Bool-cases, all-append,
}
use alayaface.Json.{ContentData}
use alayaface.Sending.{SendError, write_error, SessionRefs, open_pipe, write_each, write_frames_to}
use alayaface.Wire.{WireError, encode, write_frame, tag_user_x, tag_user_end}
use alayaface.Wire.Utf8.{is_utf8}
use alayaface.Wire.Reading.{first_frame}
use alayaface.Wire.RoundTrip.{first_frame-encode}
use alayaface.Prompt.{
  is_media_type, content, media_frames, text_frames, MediaItem, PromptError, not_sent,
  prompt_frames, send_prompt,
}

-- A pipe that keeps what is written to it.
abbrev pub append : Text → Text → Result WireError Text
append pipe bytes = ok (pipe ++ bytes)

abbrev pub keep : Text → Result Text Text
keep pipe = ok pipe

-- The bytes are these frames one after another, and nothing else.
abbrev pub ReadsAs : Text → List (Text × Text) → Type 0
ReadsAs bytes [] = bytes ≡ []
ReadsAs bytes ((tag, value) ∷ frames) =
    (rest : Text) × (first_frame bytes ≡ ok (some (record { tag = tag; value = value }, rest)))
    × ReadsAs rest frames

abbrev is_utf8_frame : Text × Text → Bool
is_utf8_frame (tag, value) = is_utf8 value

write_frame-append :
    (pipe tag value out : Text)
    → write_frame append pipe tag value ≡ ok out
    → (buf : Text) × (encode tag value ≡ ok buf) × (out ≡ pipe ++ buf)
unfolding write_frame
write_frame-append pipe tag value out h =
    let (buf, sent, wrote) = ok_of_bind (encode tag value) (append pipe) h in
    (buf, sent, sym (same_ok (pipe ++ buf) out wrote))

ok_of_map_err :
    {E F A : Type 0} (f : E → F) (r : Result E A) (a : A) → map_err f r ≡ ok a → r ≡ ok a
ok_of_map_err f (ok b) a h = ap ok (same_ok b a h)
ok_of_map_err f (err e) a h = cc

pub write_each-ReadsAs :
    (pipe out : Text) (frames : List (Text × Text))
    → all is_utf8_frame frames ≡ true
    → write_each append keep pipe frames ≡ ok out
    → (bytes : Text) × (out ≡ pipe ++ bytes) × ReadsAs bytes frames
unfolding write_each
write_each-ReadsAs pipe out [] utf8 h = ([], sym (same_ok pipe out h) ∙ sym (append-nil pipe), refl)
write_each-ReadsAs pipe out ((tag, value) ∷ frames) utf8 h =
    let (mid, first, later) =
      ok_of_bind (map_err write_error (write_frame append pipe tag value))
        (λ written. write_each append keep written frames) h in
    let (buf, sent, wrote) =
      write_frame-append pipe tag value mid
        (ok_of_map_err write_error (write_frame append pipe tag value) mid first) in
    let (bytes, end, reads) =
      write_each-ReadsAs mid out frames (and_right (is_utf8 value) (all is_utf8_frame frames) utf8)
        later in
    (
      buf ++ bytes,
      end ∙ ap (λ p. p ++ bytes) wrote ∙ append_assoc pipe buf bytes,
      (
        bytes,
        first_frame-encode tag value buf bytes sent
            (and_left (is_utf8 value) (all is_utf8_frame frames) utf8),
        reads,
      ),
    )

open_pipe-stdin :
    (refs : SessionRefs Text) (pipe opened : Text)
    → refs.stdin ≡ some pipe
    → open_pipe append keep refs ≡ ok opened
    → opened ≡ pipe
unfolding open_pipe
open_pipe-stdin refs pipe opened e h = elim (Bool-cases (not refs.connected)) [
  | inl f ↦ let no : err SendError.disconnected ≡ ok opened = sym (rw (open_pipe, f) refl) ∙ h in cc
  | inr f ↦ same_ok opened pipe (sym h ∙ rw (open_pipe, f, e) refl)
]

-- A burst of frames that was written is read back as those frames, one after another.
pub write_frames_to-ReadsAs :
    (refs : SessionRefs Text) (pipe out : Text) (frames : List (Text × Text))
    → refs.stdin ≡ some pipe
    → all is_utf8_frame frames ≡ true
    → write_frames_to append keep refs frames ≡ ok out
    → (bytes : Text) × (out ≡ pipe ++ bytes) × ReadsAs bytes frames
unfolding write_frames_to
write_frames_to-ReadsAs refs pipe out frames e utf8 h =
    let (opened, at, later) =
      ok_of_bind (open_pipe append keep refs)
        (λ p. (do
          written ← write_each append keep p frames
          map_err SendError.flush_error (keep written)))
        h in
    let (written, wrote, flushed) =
      ok_of_bind (write_each append keep opened frames)
        (λ w. map_err SendError.flush_error (keep w)) later in
    let (bytes, end, reads) = write_each-ReadsAs opened written frames utf8 wrote in
    (
      bytes,
      sym (same_ok written out flushed)
          ∙ end
          ∙ ap (λ p. p ++ bytes) (open_pipe-stdin refs pipe opened e at),
      reads,
    )

-- The types of media that a prompt may have.
abbrev pub IsKnownType : Text → Type 0
IsKnownType t =
    (t ≡ codes "image") ⊎ (t ≡ codes "audio") ⊎ (t ≡ codes "video") ⊎ (t ≡ codes "document")

is_media_type-IsKnownType : (t : Text) → is_media_type t ≡ true → IsKnownType t
unfolding is_media_type
is_media_type-IsKnownType t h = elim (Bool-cases (text_eq t (codes "image"))) [
  | inl image ↦ inl (eq_of_text_eq t (codes "image") image)
  | inr no_image ↦ elim (Bool-cases (text_eq t (codes "audio"))) [
    | inl audio ↦ inr (inl (eq_of_text_eq t (codes "audio") audio))
    | inr no_audio ↦ elim (Bool-cases (text_eq t (codes "video"))) [
      | inl video ↦ inr (inr (inl (eq_of_text_eq t (codes "video") video)))
      | inr no_video ↦ inr (
          inr (
            inr (
              eq_of_text_eq t (codes "document")
                (sym (rw (is_media_type, no_image, no_audio, no_video) refl) ∙ h))))
    ]
  ]
]

-- The frame of a medium, which has a known type.
abbrev pub IsFrame : (ContentData → Text) → MediaItem → Text × Text → Type 0
IsFrame to_string item frame =
    IsKnownType item.media_type
    × (frame ≡ (codes "UX", to_string (content item.media_type [] item.media_uri)))

-- The frames of some media, each of its own, in their order.
abbrev pub AllFrames : (ContentData → Text) → List MediaItem → List (Text × Text) → Type 0
AllFrames to_string [] frames = frames ≡ []
AllFrames to_string (item ∷ media) frames =
    (first : Text × Text) × (rest : List (Text × Text)) × (frames ≡ first ∷ rest)
    × IsFrame to_string item first
    × AllFrames to_string media rest

-- What stands behind the media: the text, if it is not empty, and the end.
abbrev pub ending : (ContentData → Text) → Text → List (Text × Text)
ending to_string [] = (codes "UE", []) ∷ []
ending to_string (c ∷ cs) =
    (codes "UX", to_string (content (codes "text") (c ∷ cs) [])) ∷ (codes "UE", []) ∷ []

text_frames-ending :
    (to_string : ContentData → Text) (text : Text)
    → text_frames to_string text ++ (tag_user_end, []) ∷ [] ≡ ending to_string text
unfolding text_frames
text_frames-ending to_string [] = refl
text_frames-ending to_string (c ∷ cs) = refl

media_frames-AllFrames :
    (to_string : ContentData → Text) (media : List MediaItem) (frames : List (Text × Text))
    → media_frames to_string media ≡ ok frames
    → AllFrames to_string media frames
unfolding media_frames
media_frames-AllFrames to_string [] frames h = sym (same_ok [] frames h)
media_frames-AllFrames to_string (item ∷ media) frames h =
    elim (Bool-cases (is_media_type item.media_type)) [
      | inr e ↦
          let clash : err (PromptError.unknown_media item.media_type) ≡ ok frames =
            sym (rw e refl) ∙ h in
          cc
      | inl e ↦
          let first : Text × Text =
            (tag_user_x, to_string (content item.media_type [] item.media_uri)) in
          let (rest, known, same) =
            ok_of_bind (media_frames to_string media) (λ fs. ok (first ∷ fs))
              (sym (rw e refl) ∙ h) in
          (
            first,
            rest,
            sym (same_ok (first ∷ rest) frames same),
            (is_media_type-IsKnownType item.media_type e, refl),
            media_frames-AllFrames to_string media rest known,
          )
    ]

prompt_frames-AllFrames :
    (to_string : ContentData → Text) (text : Text) (media : List MediaItem)
    (frames : List (Text × Text))
    → prompt_frames to_string text media ≡ ok frames
    → (fs : List (Text × Text)) × AllFrames to_string media fs
      × (frames ≡ fs ++ ending to_string text)
unfolding prompt_frames
prompt_frames-AllFrames to_string text media frames h =
    let body = text_frames to_string text in
    let end : List (Text × Text) = (tag_user_end, []) ∷ [] in
    let (fs, made, same) =
      ok_of_bind (media_frames to_string media) (λ fs. ok ((fs ++ body) ++ end)) h in
    (
      fs,
      media_frames-AllFrames to_string media fs made,
      sym (same_ok ((fs ++ body) ++ end) frames same)
          ∙ append_assoc fs body end
          ∙ ap (◌++◌ fs) (text_frames-ending to_string text),
    )

module _ (to_string : ContentData → Text)
    (printed : (d : ContentData) → is_utf8 (to_string d) ≡ true) where
  media_frames-utf8 :
      (media : List MediaItem) (frames : List (Text × Text))
      → media_frames to_string media ≡ ok frames
      → all is_utf8_frame frames ≡ true
  unfolding media_frames
  media_frames-utf8 [] frames h = ap (all is_utf8_frame) (sym (same_ok [] frames h))
  media_frames-utf8 (item ∷ media) frames h =
      elim (Bool-cases (not (is_media_type item.media_type))) [
        | inl e ↦
            let no : err (PromptError.unknown_media item.media_type) ≡ ok frames =
              sym (rw e refl) ∙ h in
            cc
        | inr e ↦
            let first : Text × Text =
              (tag_user_x, to_string (content item.media_type [] item.media_uri)) in
            let (rest, ih, same) =
              ok_of_bind (media_frames to_string media) (λ fs. ok (first ∷ fs))
                (sym (rw e refl) ∙ h) in
            ap (all is_utf8_frame) (sym (same_ok (first ∷ rest) frames same))
            ∙ rw
                (
                  printed (content item.media_type [] item.media_uri),
                  media_frames-utf8 media rest ih,
                )
                refl
      ]

  text_frames-utf8 : (text : Text) → all is_utf8_frame (text_frames to_string text) ≡ true
  unfolding text_frames
  text_frames-utf8 [] = refl
  text_frames-utf8 (c ∷ cs) = rw (printed (content (codes "text") (c ∷ cs) [])) refl

  prompt_frames-utf8 :
      (text : Text) (media : List MediaItem) (frames : List (Text × Text))
      → prompt_frames to_string text media ≡ ok frames
      → all is_utf8_frame frames ≡ true
  unfolding prompt_frames is_utf8
  prompt_frames-utf8 text media frames h =
      let body = text_frames to_string text in
      let end : List (Text × Text) = (tag_user_end, []) ∷ [] in
      let (fs, ok_media, same) =
        ok_of_bind (media_frames to_string media) (λ fs. ok ((fs ++ body) ++ end)) h in
      ap (all is_utf8_frame) (sym (same_ok ((fs ++ body) ++ end) frames same))
      ∙ all-append is_utf8_frame (fs ++ body) end
      ∙ rw
          (
            all-append is_utf8_frame fs body,
            media_frames-utf8 media fs ok_media,
            text_frames-utf8 text,
          )
          refl

  -- A prompt that was sent has written one burst behind what the pipe held: a UX frame for each medium, which
  -- is an image, audio, video or a document, in their order, one for its text if that is not empty, and the UE frame of the end
  -- of the prompt. The bytes read back as exactly
  -- these frames, with nothing between or behind them. The JSON library writes UTF-8, and the pipe keeps
  -- what is written to it.
  pub send_prompt-ReadsAs :
      (text : Text) (media : List MediaItem) (refs : SessionRefs Text) (pipe out : Text)
      → refs.stdin ≡ some pipe
      → send_prompt to_string append keep text media refs ≡ ok out
      → (frames : List (Text × Text)) × AllFrames to_string media frames
        × (bytes : Text) × (out ≡ pipe ++ bytes)
        × ReadsAs bytes (frames ++ ending to_string text)
  unfolding send_prompt
  send_prompt-ReadsAs text media refs pipe out e h =
      let (frames, made, sent) =
        ok_of_bind (prompt_frames to_string text media)
          (λ fs. map_err not_sent (write_frames_to append keep refs fs)) h in
      let (bytes, end, reads) =
        write_frames_to-ReadsAs refs pipe out frames e (prompt_frames-utf8 text media frames made)
          (ok_of_map_err not_sent (write_frames_to append keep refs frames) out sent) in
      let (fs, known, same) = prompt_frames-AllFrames to_string text media frames made in
      (fs, known, bytes, end, subst (ReadsAs bytes) same reads)
