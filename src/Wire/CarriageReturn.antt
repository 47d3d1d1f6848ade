-- ===== src/Wire/CarriageReturn.antt =====
-- A carriage return inside a value: `encode` refuses it and `decode_line` does not.
use alayaface.Prelude.{
  ℕ, ◌≡◌, refl, ap, ◌∙◌, Bool, true, false, some, [], ◌∷◌, arith, Text, length, all, any, suc,
  Bool-cases, inl, inr, ok, err,
}
use alayaface.Wire.{
  raw_newline, is_letter, starts_with_brace, is_line_end, encode, decode_stripped, strip_cr,
  decode_line,
}
use alayaface.Wire.Utf8.{is_utf8}
use alayaface.Wire.Bytes.{position}
use alayaface.Wire.RoundTrip.{decode_line-strip_cr}
use alayaface.Wire.Soundness.{is_cr}

abbrev pub ends_with_cr : Text → Bool
ends_with_cr [] = false
ends_with_cr (b ∷ []) = is_cr b
ends_with_cr (b ∷ c ∷ rest) = ends_with_cr (c ∷ rest)

strip_cr-kept : (line : Text) → ends_with_cr line ≡ false → strip_cr line ≡ line
unfolding strip_cr
strip_cr-kept [] h = refl
strip_cr-kept (b ∷ []) h = ground arith
strip_cr-kept (b ∷ c ∷ rest) h = ap (λ t. b ∷ t) (strip_cr-kept (c ∷ rest) h)

position-cr :
    (value : Text) → any is_cr value ≡ true → (i : ℕ) × (position is_line_end value ≡ some i)
unfolding position
position-cr [] h = cc
position-cr (b ∷ bs) h = elim (Bool-cases (is_line_end b)) [
  | inl e ↦ (0, rw e)
  | inr e ↦ let (i, at) = position-cr bs (ground arith) in (suc i, rw (e, at))
]

encode_refuses :
    (tag value : Text)
    → length tag ≡ 2
    → all is_letter tag ≡ true
    → starts_with_brace value ≡ true
    → any is_cr value ≡ true
    → (i : ℕ) × (encode tag value ≡ err (raw_newline i))
unfolding encode
encode_refuses tag value two letters brace cr =
    let (i, at) = position-cr value cr in (i, rw (encode, at) (ground arith))

decode_accepts :
    (a b : ℕ) (value : Text)
    → is_letter a ≡ true
    → is_letter b ≡ true
    → starts_with_brace value ≡ true
    → is_utf8 value ≡ true
    → decode_stripped (a ∷ b ∷ value) ≡ ok (record { tag = a ∷ b ∷ []; value = value })
unfolding decode_stripped
decode_accepts a b value la lb brace u = ground arith

-- For every tag of two letters and every object text that holds a carriage return, but does not end
-- with one, `encode` refuses the frame for a raw newline, and `decode_line` accepts its line.
pub decode_line-not_encode :
    (a b : ℕ) (value : Text)
    → is_letter a ≡ true
    → is_letter b ≡ true
    → starts_with_brace value ≡ true
    → is_utf8 value ≡ true
    → any is_cr value ≡ true
    → ends_with_cr value ≡ false
    → ((i : ℕ) × (encode (a ∷ b ∷ []) value ≡ err (raw_newline i)))
      × (decode_line (a ∷ b ∷ value) ≡ ok (record { tag = a ∷ b ∷ []; value = value }))
decode_line-not_encode a b [] la lb brace u cr end = cc
decode_line-not_encode a b (c ∷ cs) la lb brace u cr end = (
  encode_refuses (a ∷ b ∷ []) (c ∷ cs) refl (ground arith) brace cr,
  decode_line-strip_cr (a ∷ b ∷ c ∷ cs)
      ∙ ap decode_stripped (strip_cr-kept (a ∷ b ∷ c ∷ cs) end)
      ∙ decode_accepts a b (c ∷ cs) la lb brace u,
)
