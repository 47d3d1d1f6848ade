-- ===== src/Wire/Encoding.antt =====
-- Which frames `encode` writes, and which bytes.
use alayaface.Prelude.{
  ℕ, ◌+◌, ◌≤◌, ◌≡◌, refl, Bool, true, false, ◌||◌, inl, inr, none, [], ◌∷◌, ◌++◌, arith, Text,
  length, all, any, is_empty, Option-cases, ok,
}
use alayaface.Wire.{max_frame_size, is_letter, starts_with_brace, is_line_end, encode}
use alayaface.Wire.Bytes.{position, cut}

-- What the protocol asks of a frame: two letters, then an object or nothing, on one line, within
-- the maximum.
pub record IsSendable (tag value : Text) : Type 0 where
  pub two : length tag ≡ 2
  pub letters : all is_letter tag ≡ true
  pub object : (is_empty value || starts_with_brace value) ≡ true
  pub one_line : any is_line_end value ≡ false
  pub fits : length tag + length value + 1 ≤ max_frame_size

any-position-none : (p : ℕ → Bool) (xs : Text) → position p xs ≡ none → any p xs ≡ false
unfolding position
any-position-none p [] h = refl
any-position-none p (x ∷ xs) h = ground (arith, any-position-none p xs)

position-none-any : (p : ℕ → Bool) (xs : Text) → any p xs ≡ false → position p xs ≡ none
unfolding position
position-none-any p [] h = refl
position-none-any p (x ∷ xs) h = ground (arith, position-none-any p xs)

pub cut-none-any : (p : ℕ → Bool) (xs : Text) → any p xs ≡ false → cut p xs ≡ none
unfolding cut
cut-none-any p [] h = refl
cut-none-any p (x ∷ xs) h = ground (arith, cut-none-any p xs)

-- `encode` writes exactly the frames that the protocol allows, as tag, value and newline.
pub encode-of_IsSendable :
    (tag value : Text) → IsSendable tag value → encode tag value ≡ ok (tag ++ value ++ b'\n' ∷ [])
unfolding encode
encode-of_IsSendable tag value s =
    rw (encode, position-none-any is_line_end value s.one_line) (ground arith)

pub IsSendable-encode :
    (tag value buf : Text)
    → encode tag value ≡ ok buf
    → IsSendable tag value × (buf ≡ tag ++ value ++ b'\n' ∷ [])
unfolding encode
IsSendable-encode tag value buf h = elim (Option-cases (position is_line_end value)) [
  | inl e ↦
      let one_line = any-position-none is_line_end value e in
      (
        record {
          two = ground arith;
          letters = ground arith;
          object = ground arith;
          one_line = one_line;
          fits = ground arith;
        },
        ground arith,
      )
  | inr (i, e) ↦ absurd (ground arith)
]
