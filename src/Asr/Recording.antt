-- ===== src/Asr/Recording.antt =====
-- The recordings that `wav_params` of src-tauri/src/commands/asr.rs reads.
use alayaface.Prelude.{
  ℕ, zero, suc, ◌+◌, ◌/◌, ◌%◌, ◌≤◌, ◌<◌, ◌≡◌, refl, ap, ap₂, ◌∙◌, true, Option, none, some, List,
  [], ◌∷◌, ◌++◌, codes, text_eq, take, length, length-append, all, leb, le→ltb, arith,
}
use alayaface.Wire.Bytes.{drop}
use alayaface.Asr.Wav.{
  le16, Format, format_of, fmt_id, data_id, go_on, answer, chunk_step, scan, is_riff, wav_params,
}
use alayaface.Asr.Container.{
  limit, Chunk, put_chunk, put_chunks, pad, is_other, le16-bytes, le32-bytes, drop-padded,
  scan-chunk, scan-others,
}

-- A format with the fields of a `fmt ` chunk: its byte rate and its alignment are not looked at.
abbrev pub put_format : Format → List ℕ → List ℕ → List ℕ
put_format f unread extra =
    1
      ∷ 0
      ∷ f.channels % 0x100
      ∷ f.channels / 0x100 % 0x100
      ∷ f.rate % 0x100
      ∷ f.rate / 0x100 % 0x100
      ∷ f.rate / 0x1_0000 % 0x100
      ∷ f.rate / 0x100_0000 % 0x100
      ∷ unread
    ++ f.bits % 0x100 ∷ f.bits / 0x100 % 0x100 ∷ extra

-- The fields have the widths of the header.
abbrev pub IsFormat : Format → Type 0
IsFormat f = (f.rate < limit) × (f.channels < 0x1_0000) × (f.bits < 0x1_0000)

format_of-put_format :
    (f : Format) (y0 y1 y2 y3 a0 a1 : ℕ) (extra : List ℕ)
    → IsFormat f
    → format_of (put_format f (y0 ∷ y1 ∷ y2 ∷ y3 ∷ a0 ∷ a1 ∷ []) extra) ≡ some f
unfolding format_of
format_of-put_format f y0 y1 y2 y3 a0 a1 extra (rate, channels, bits) =
    ap₂
      (λ r c.
        some (record {
          rate = r;
          channels = c;
          bits = le16 (f.bits % 0x100) (f.bits / 0x100 % 0x100);
        }))
      (le32-bytes (f.rate) rate) (le16-bytes (f.channels) channels)
    ∙ ap (λ b. some (record { rate = f.rate; channels = f.channels; bits = b }))
        (le16-bytes (f.bits) bits)

chunk_step-format :
    (have_fmt : Option Format) (n : ℕ) (f : Format) (body : List ℕ)
    → leb 16 n ≡ true
    → leb 24 (length body) ≡ true
    → format_of body ≡ some f
    → chunk_step have_fmt fmt_id n body ≡ go_on (some f)
unfolding chunk_step text_eq
chunk_step-format have_fmt n f body long more e = rw (chunk_step, long, more, e) refl

chunk_step-data :
    (f : Format) (n : ℕ) (body : List ℕ)
    → chunk_step (some f) data_id n body ≡ answer (some (record { format = f; pcm = take n body }))
unfolding chunk_step text_eq
chunk_step-data f n body = refl

-- The chunk of a format, whose size has room for what follows its fields.
abbrev pub put_fmt_chunk : Format → List ℕ → List ℕ → List ℕ → List ℕ
put_fmt_chunk f unread extra rest =
    let body = put_format f unread extra in
    put_chunk fmt_id (length body) (body ++ (pad (length body) ++ rest))

long_enough : (k e p r : ℕ) → k ≡ 16 + e → 8 ≤ r → leb 24 (k + (p + r)) ≡ true
long_enough k e p r same h = ground arith

sixteen : (e : ℕ) → leb 16 (16 + e) ≡ true
sixteen e = ground arith

scan-format :
    (fuel : ℕ) (f : Format) (y0 y1 y2 y3 a0 a1 : ℕ) (extra rest : List ℕ)
    → IsFormat f
    → 16 + length extra < limit
    → 8 ≤ length rest
    → scan (suc fuel) none (put_fmt_chunk f (y0 ∷ y1 ∷ y2 ∷ y3 ∷ a0 ∷ a1 ∷ []) extra rest)
      ≡ scan fuel (some f) rest
scan-format fuel f y0 y1 y2 y3 a0 a1 extra rest valid small more =
    let unread = y0 ∷ y1 ∷ y2 ∷ y3 ∷ a0 ∷ a1 ∷ [] in
    let body = put_format f unread extra in
    let counted : length body ≡ 16 + length extra = omega arith in
    let all_of = body ++ (pad (length body) ++ rest) in
    let whole : length all_of ≡ length body + (length (pad (length body)) + length rest) =
      length-append body (pad (length body) ++ rest)
      ∙ ap (λ k. length body + k) (length-append (pad (length body)) rest) in
    scan-chunk fuel none b'f' b'm' b't' b' ' (length body) all_of (omega (arith, counted))
    ∙ rw
        (chunk_step-format none (length body) f all_of
          (ap (leb 16) counted ∙ sixteen (length extra))
          (ap (leb 24) whole
            ∙ long_enough (length body) (length extra) (length (pad (length body))) (length rest)
                counted more)
          (format_of-put_format f y0 y1 y2 y3 a0 a1 (extra ++ (pad (length body) ++ rest)) valid))
        (ap (scan fuel (some f)) (drop-padded body rest))

scan-data :
    (fuel : ℕ) (f : Format) (n : ℕ) (samples : List ℕ)
    → n < limit
    → length (put_chunk data_id n samples) ≤ fuel
    → scan fuel (some f) (put_chunk data_id n samples)
      ≡ some (record { format = f; pcm = take n samples })
scan-data zero f n samples small enough = absurd (omega arith)
scan-data (suc fuel) f n samples small enough =
    scan-chunk fuel (some f) b'd' b'a' b't' b'a' n samples small
    ∙ rw (chunk_step-data f n samples) refl

-- A recording: the RIFF header, other chunks, the format, other chunks, and the samples with what follows
-- them.
abbrev pub put_wav : List Chunk → Format → List ℕ → List ℕ → List Chunk → ℕ → List ℕ → List ℕ
put_wav before f unread extra between n samples =
    codes "RIFF"
    ++ 0 ∷ 0 ∷ 0 ∷ 0 ∷ codes "WAVE"
    ++ put_chunks before
        (put_fmt_chunk f unread extra (put_chunks between (put_chunk data_id n samples)))

length-put_chunks : (cs : List Chunk) (rest : List ℕ) → length rest ≤ length (put_chunks cs rest)
length-put_chunks [] rest = omega arith
length-put_chunks (c ∷ cs) rest =
    let split = length-append (c.body) (pad (length (c.body)) ++ put_chunks cs rest) in
    let padded = length-append (pad (length (c.body))) (put_chunks cs rest) in
    let more = length-put_chunks cs rest in omega (arith, split, padded, more)

-- From the format on.
scan-from_format :
    (fuel : ℕ) (f : Format) (y0 y1 y2 y3 a0 a1 : ℕ) (extra : List ℕ) (between : List Chunk) (n : ℕ)
    (samples : List ℕ)
    → IsFormat f
    → 16 + length extra < limit
    → all is_other between ≡ true
    → n < limit
    → length (
        put_fmt_chunk f
          (y0 ∷ y1 ∷ y2 ∷ y3 ∷ a0 ∷ a1 ∷ [])
          extra
          (put_chunks between (put_chunk data_id n samples)))
      ≤ fuel
    → scan fuel none (
        put_fmt_chunk f
          (y0 ∷ y1 ∷ y2 ∷ y3 ∷ a0 ∷ a1 ∷ [])
          extra
          (put_chunks between (put_chunk data_id n samples)))
      ≡ some (record { format = f; pcm = take n samples })
scan-from_format zero f y0 y1 y2 y3 a0 a1 extra between n samples valid room others small enough =
    absurd (omega arith)
scan-from_format (suc fuel) f y0 y1 y2 y3 a0 a1 extra between n samples valid room others small
      enough =
    let body = put_format f (y0 ∷ y1 ∷ y2 ∷ y3 ∷ a0 ∷ a1 ∷ []) extra in
    let samples_chunk = put_chunk data_id n samples in
    let rest = put_chunks between samples_chunk in
    let long = length-put_chunks between samples_chunk in
    let behind : 8 + length samples ≤ length rest = omega (arith, long) in
    let split : length (body ++ (pad (length body) ++ rest))
        ≡ length body + length (pad (length body) ++ rest) =
      length-append body (pad (length body) ++ rest) in
    let padded : length (pad (length body) ++ rest) ≡ length (pad (length body)) + length rest =
      length-append (pad (length body)) rest in
    let left_fuel : length rest ≤ fuel = omega (arith, split, padded) in
    let (left, still, same) = scan-others fuel (some f) between samples_chunk others left_fuel in
    scan-format fuel f y0 y1 y2 y3 a0 a1 extra rest valid room (omega (arith, behind))
    ∙ same
    ∙ scan-data left f n samples small still

is_riff-riff :
    (rest : List ℕ) → is_riff (codes "RIFF" ++ 0 ∷ 0 ∷ 0 ∷ 0 ∷ codes "WAVE" ++ rest) ≡ true
unfolding is_riff text_eq drop
is_riff-riff rest =
    rw (le→ltb (length (codes "RIFF" ++ 0 ∷ 0 ∷ 0 ∷ 0 ∷ codes "WAVE" ++ rest)) 12 (omega arith))
      refl

-- A recording with a PCM format reads as this format, whatever other chunks stand before it, between it and
-- the samples, and behind them, and whatever follows its fields in its chunk. The samples are as many as
-- their chunk says, or all bytes that are left if there are fewer.
pub wav_params-put_wav :
    (before : List Chunk) (f : Format) (y0 y1 y2 y3 a0 a1 : ℕ) (extra : List ℕ)
    (between : List Chunk) (n : ℕ) (samples : List ℕ)
    → IsFormat f
    → 16 + length extra < limit
    → all is_other before ≡ true
    → all is_other between ≡ true
    → n < limit
    → wav_params (put_wav before f (y0 ∷ y1 ∷ y2 ∷ y3 ∷ a0 ∷ a1 ∷ []) extra between n samples)
      ≡ some (record { format = f; pcm = take n samples })
unfolding wav_params drop
wav_params-put_wav before f y0 y1 y2 y3 a0 a1 extra between n samples valid room others others'
      small =
    let formatted =
      put_fmt_chunk f (y0 ∷ y1 ∷ y2 ∷ y3 ∷ a0 ∷ a1 ∷ []) extra
        (put_chunks between (put_chunk data_id n samples)) in
    let (left, still, same) =
      scan-others (length (put_chunks before formatted)) none before formatted others
        (omega arith) in
    rw (is_riff-riff (put_chunks before formatted)) (
      same
      ∙ scan-from_format left f y0 y1 y2 y3 a0 a1 extra between n samples valid room others' small
          still)
