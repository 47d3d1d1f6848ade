-- ===== src/Asr/Container.antt =====
-- What `wav_params` of src-tauri/src/commands/asr.rs finds in a recording that follows the RIFF layout.
use alayaface.Prelude.{
  ℕ, zero, suc, ◌+◌, ◌/◌, ◌%◌, ◌≤◌, ◌<◌, ◌≡◌, refl, sym, ap, ap₂, ◌∙◌, Bool, true, false, not, ◌&&◌,
  Option, List, [], ◌∷◌, ◌++◌, Text, text_eq, length, length-append, all, ltb, ltb→lt, ◌==◌,
  if◌then◌else◌, arith, append_assoc, inl, inr, Bool-cases, and_left, and_right,
}
use alayaface.Wire.Bytes.{drop}
use alayaface.Asr.Wav.{le16, le32, Format, fmt_id, data_id, go_on, answer, chunk_step, header, scan}

-- sizes of 32 bits
abbrev pub limit : ℕ
limit = 0x1_0000_0000

pub le16-bytes : (n : ℕ) → n < 0x1_0000 → le16 (n % 0x100) (n / 0x100 % 0x100) ≡ n
le16-bytes n h = omega arith

pub le32-bytes :
    (n : ℕ)
    → n < limit
    → le32 (n % 0x100) (n / 0x100 % 0x100) (n / 0x1_0000 % 0x100) (n / 0x100_0000 % 0x100) ≡ n
le32-bytes n h = omega arith

-- A chunk with its id, and what follows its size.
abbrev pub put_chunk : Text → ℕ → List ℕ → List ℕ
put_chunk id n body =
    id ++ n % 0x100 ∷ n / 0x100 % 0x100 ∷ n / 0x1_0000 % 0x100 ∷ n / 0x100_0000 % 0x100 ∷ body

abbrev pub pad : ℕ → List ℕ
pad n = if n % 2 == 0 then [] else 0 ∷ []

pub record Chunk : Type 0 where
  pub i0 : ℕ
  pub i1 : ℕ
  pub i2 : ℕ
  pub i3 : ℕ
  pub body : List ℕ

abbrev pub id_of : Chunk → Text
id_of c = c.i0 ∷ c.i1 ∷ c.i2 ∷ c.i3 ∷ []

-- The chunks before the samples, each with its padding.
abbrev pub put_chunks : List Chunk → List ℕ → List ℕ
put_chunks [] rest = rest
put_chunks (c ∷ cs) rest =
    put_chunk (id_of c) (length (c.body)) (c.body ++ (pad (length (c.body)) ++ put_chunks cs rest))

-- A chunk that is neither the format nor the samples, with a size of 32 bits.
abbrev pub is_other : Chunk → Bool
is_other c =
    ltb (length (c.body)) limit
    && (not (text_eq (id_of c) fmt_id) && not (text_eq (id_of c) data_id))

other_parts :
    (a b c : Bool) → (a && (not b && not c)) ≡ true → (a ≡ true) × (b ≡ false) × (c ≡ false)
other_parts a b c h = (ground arith, ground arith, ground arith)

drop-append : (xs ys : List ℕ) → drop (length xs) (xs ++ ys) ≡ ys
unfolding drop
drop-append [] ys = refl
drop-append (x ∷ xs) ys = drop-append xs ys

length-pad : (n : ℕ) → length (pad n) ≡ n % 2
length-pad n = elim (Bool-cases (n % 2 == 0)) [
  | inl even ↦ rw even (ground arith)
  | inr odd ↦ rw odd (ground arith)
]

pub drop-padded :
    (body rest : List ℕ)
    → drop (length body + length body % 2) (body ++ (pad (length body) ++ rest)) ≡ rest
drop-padded body rest =
    ap₂ drop
      (sym (
        length-append body (pad (length body))
        ∙ ap (λ k. length body + k) (length-pad (length body))))
      (sym (append_assoc body (pad (length body)) rest))
    ∙ drop-append (body ++ pad (length body)) rest

chunk_step-other :
    (have_fmt : Option Format) (id : Text) (n : ℕ) (body : List ℕ)
    → text_eq id fmt_id ≡ false
    → text_eq id data_id ≡ false
    → chunk_step have_fmt id n body ≡ go_on have_fmt
unfolding chunk_step
chunk_step-other have_fmt id n body no_fmt no_data = rw (chunk_step, no_fmt, no_data) refl

-- A turn of the loop on a chunk that was written.
pub scan-chunk :
    (fuel : ℕ) (have_fmt : Option Format) (i0 i1 i2 i3 n : ℕ) (body : List ℕ)
    → n < limit
    → scan (suc fuel) have_fmt (put_chunk (i0 ∷ i1 ∷ i2 ∷ i3 ∷ []) n body)
      ≡ elim (chunk_step have_fmt (i0 ∷ i1 ∷ i2 ∷ i3 ∷ []) n body) [
        | answer found ↦ found
        | go_on have_fmt' ↦ scan fuel have_fmt' (drop (n + n % 2) body)
      ]
unfolding scan header
scan-chunk fuel have_fmt i0 i1 i2 i3 n body small =
    ap
      (λ size. elim (chunk_step have_fmt (i0 ∷ i1 ∷ i2 ∷ i3 ∷ []) size body) [
        | answer found ↦ found
        | go_on have_fmt' ↦ scan fuel have_fmt' (drop (size + size % 2) body)
      ])
      (le32-bytes n small)

scan-other :
    (fuel : ℕ) (have_fmt : Option Format) (c : Chunk) (cs : List Chunk) (rest : List ℕ)
    → is_other c ≡ true
    → scan (suc fuel) have_fmt (put_chunks (c ∷ cs) rest) ≡ scan fuel have_fmt (put_chunks cs rest)
scan-other fuel have_fmt c cs rest h =
    let (small, no_fmt, no_data) =
      other_parts (ltb (length (c.body)) limit) (text_eq (id_of c) fmt_id)
        (text_eq (id_of c) data_id) h in
    let body = c.body ++ (pad (length (c.body)) ++ put_chunks cs rest) in
    scan-chunk fuel have_fmt (c.i0) (c.i1) (c.i2) (c.i3) (length (c.body)) body
      (ltb→lt (length (c.body)) limit small)
    ∙ rw (chunk_step-other have_fmt (id_of c) (length (c.body)) body no_fmt no_data)
        (ap (scan fuel have_fmt) (drop-padded (c.body) (put_chunks cs rest)))

pub shorter :
    (fuel : ℕ) (c : Chunk) (rest : List ℕ)
    → length (put_chunk (id_of c) (length (c.body)) (c.body ++ (pad (length (c.body)) ++ rest)))
      ≤ suc fuel
    → length rest ≤ fuel
shorter fuel c rest enough =
    let split = length-append (c.body) (pad (length (c.body)) ++ rest) in
    let padded = length-append (pad (length (c.body))) rest in omega (arith, split, padded)

-- The chunks before are passed over, and there is fuel for what is behind them.
pub scan-others :
    (fuel : ℕ) (have_fmt : Option Format) (cs : List Chunk) (rest : List ℕ)
    → all is_other cs ≡ true
    → length (put_chunks cs rest) ≤ fuel
    → (left : ℕ) × (length rest ≤ left)
      × (scan fuel have_fmt (put_chunks cs rest) ≡ scan left have_fmt rest)
scan-others fuel have_fmt [] rest h enough = (fuel, enough, refl)
scan-others zero have_fmt (c ∷ cs) rest h enough = absurd (omega arith)
scan-others (suc fuel) have_fmt (c ∷ cs) rest h enough =
    let longer : length (put_chunks cs rest) ≤ fuel = shorter fuel c (put_chunks cs rest) enough in
    let (left, still, same) =
      scan-others fuel have_fmt cs rest (and_right (is_other c) (all is_other cs) h) longer in
    (
      left,
      still,
      scan-other fuel have_fmt c cs rest (and_left (is_other c) (all is_other cs) h) ∙ same,
    )
