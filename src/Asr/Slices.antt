-- ===== src/Asr/Slices.antt =====
-- What `wav_params` of src-tauri/src/commands/asr.rs answers with is of the recording.
use alayaface.Prelude.{
  codes, ◌*◌, ℕ, ◌+◌, ◌%◌, ◌≡◌, Bool, true, Option, none, some, List, [], ◌∷◌, ◌++◌, Text, text_eq,
  take, all, ltb, and_right,
}
use alayaface.Wire.Bytes.{drop}
use alayaface.Asr.Wav.{le32, Format, data_id, Params, Step, go_on, answer, scan}
use alayaface.Asr.Recording.{IsFormat}

abbrev pub is_byte : ℕ → Bool
is_byte b = ltb b 0x100

-- The samples are what the chunk `data` of a recording holds: the bytes right behind its id and its size,
-- as many as the size says, or those that are there.
abbrev pub IsDataChunk : List ℕ → List ℕ → Type 0
IsDataChunk pcm whole =
    (before : List ℕ) × (body : List ℕ) × (s0 : ℕ) × (s1 : ℕ) × (s2 : ℕ) × (s3 : ℕ) × (whole
      ≡ before ++ (codes "data" ++ s0 ∷ s1 ∷ s2 ∷ s3 ∷ body))
    × (pcm ≡ take (s0 + 0x100 * s1 + 0x1_0000 * s2 + 0x100_0000 * s3) body)

-- The id and the size of a chunk stand right before what is behind them.
abbrev IsHeader : List ℕ → Text → ℕ → List ℕ → Type 0
IsHeader rest id size body =
    (s0 : ℕ) × (s1 : ℕ) × (s2 : ℕ) × (s3 : ℕ) × (rest ≡ id ++ s0 ∷ s1 ∷ s2 ∷ s3 ∷ body)
    × (size ≡ le32 s0 s1 s2 s3)

-- The format that is known is within the header's widths.
abbrev IsKnown : Option Format → Type 0
IsKnown none = Unit
IsKnown (some f) = IsFormat f

abbrev IsAnswer : Option Params → List ℕ → Type 0
IsAnswer none rest = Unit
IsAnswer (some p) rest = IsFormat (p.format) × IsDataChunk (p.pcm) rest

-- An answer comes from the chunk `data`.
abbrev IsTaken : Option Params → Text → ℕ → List ℕ → Type 0
IsTaken none id size body = Unit
IsTaken (some p) id size body =
    IsFormat (p.format) × (text_eq id data_id ≡ true) × (p.pcm ≡ take size body)

abbrev IsStep : Step → Text → ℕ → List ℕ → Type 0
IsStep (go_on have_fmt) id size body = IsKnown have_fmt
IsStep (answer found) id size body = IsTaken found id size body

-- What follows a chunk.
abbrev after_chunk : ℕ → ℕ → List ℕ → Step → Option Params
after_chunk fuel size body (answer found) = found
after_chunk fuel size body (go_on have_fmt) = scan fuel have_fmt (drop (size + size % 2) body)

behind : (xs ys : List ℕ) → all is_byte (xs ++ ys) ≡ true → all is_byte ys ≡ true
behind [] ys h = h
behind (x ∷ xs) ys h = behind xs ys (and_right (is_byte x) (all is_byte (xs ++ ys)) h)
