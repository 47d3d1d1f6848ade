-- ===== src/Asr/Wav.antt =====
-- The header of a recording: `wav_params` of src-tauri/src/commands/asr.rs, on the bytes from the current
-- position on.
use alayaface.Prelude.{
  ℕ, zero, suc, ◌+◌, ◌*◌, ◌%◌, Bool, not, ◌&&◌, Option, none, some, List, [], ◌∷◌, Text, codes,
  text_eq, take, length, ltb, leb, ◌==◌, if◌then◌else◌,
}
use alayaface.Wire.Bytes.{drop}

-- `u16::from_le_bytes` and `u32::from_le_bytes`
abbrev pub le16 : ℕ → ℕ → ℕ
le16 a b = a + 0x100 * b

abbrev pub le32 : ℕ → ℕ → ℕ → ℕ → ℕ
le32 a b c d = a + 0x100 * (b + 0x100 * (c + 0x100 * d))

-- `rate`, `channels` and `bits`, once there was a format
pub record Format : Type 0 where
  pub rate : ℕ
  pub channels : ℕ
  pub bits : ℕ

-- `wav[i]`; the code has checked the length before
abbrev pub at : ℕ → List ℕ → ℕ
at n [] = 0
at zero (b ∷ bs) = b
at (suc n) (b ∷ bs) = at n bs

-- The fields of a `fmt ` chunk's body, if it is PCM.
unfoldable pub format_of : List ℕ → Option Format
format_of body =
    if not (le16 (at 0 body) (at 1 body) == 1)
    then none
    else some (record {
      rate = le32 (at 4 body) (at 5 body) (at 6 body) (at 7 body);
      channels = le16 (at 2 body) (at 3 body);
      bits = le16 (at 14 body) (at 15 body);
    })

abbrev pub fmt_id : Text
fmt_id = codes "fmt "

abbrev pub data_id : Text
data_id = codes "data"

-- The recording: its format, and its samples.
pub record Params : Type 0 where
  pub format : Format
  pub pcm : List ℕ

-- What the loop does with a chunk: it goes on with a format, or it returns.
pub data Step : Type 0 where
  go_on : Option Format → Step
  answer : Option Params → Step

unfoldable pub chunk_step : Option Format → Text → ℕ → List ℕ → Step
unfolding text_eq format_of
chunk_step have_fmt id size body =
    if text_eq id fmt_id && (leb 16 size && leb 24 (length body))
    then elim (format_of body) [ none ↦ answer none | some format ↦ go_on (some format) ]
    else if text_eq id data_id
    then elim have_fmt [
      | none ↦ answer none
      | some format ↦ answer (some (record { format = format; pcm = take size body }))
    ]
    else go_on have_fmt

-- The id of a chunk, its size, and the bytes behind them, if there are eight bytes.
unfoldable pub header : List ℕ → Option (Text × (ℕ × List ℕ))
header (i0 ∷ i1 ∷ i2 ∷ i3 ∷ s0 ∷ s1 ∷ s2 ∷ s3 ∷ body) =
    some (i0 ∷ i1 ∷ i2 ∷ i3 ∷ [], (le32 s0 s1 s2 s3, body))
header _ = none

-- Each turn takes at least the eight bytes of a chunk's header, so that the length of the bytes is enough
-- fuel.
unfoldable pub scan : ℕ → Option Format → List ℕ → Option Params
unfolding header chunk_step drop
scan zero have_fmt rest = none
scan (suc fuel) have_fmt rest = elim (header rest) [
  | none ↦ none
  | some (id, (size, body)) ↦ elim (chunk_step have_fmt id size body) [
    | answer found ↦ found
    | go_on have_fmt' ↦ scan fuel have_fmt' (drop (size + size % 2) body)
  ]
]

unfoldable pub is_riff : List ℕ → Bool
unfolding text_eq drop
is_riff wav =
    not (ltb (length wav) 12)
    && (text_eq (take 4 wav) (codes "RIFF") && text_eq (take 4 (drop 8 wav)) (codes "WAVE"))

unfoldable pub wav_params : List ℕ → Option Params
unfolding is_riff drop scan
wav_params wav = if is_riff wav then scan (length (drop 12 wav)) none (drop 12 wav) else none
