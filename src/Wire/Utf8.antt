-- ===== src/Wire/Utf8.antt =====
-- Which byte strings `String::from_utf8` accepts, by the table of well-formed UTF-8.
use alayaface.Prelude.{
  ℕ, ◌≡◌, refl, Bool, true, false, ◌&&◌, ◌||◌, Option, none, some, List, [], ◌∷◌, Text, ltb, leb,
  ◌==◌, if◌then◌else◌,
}

abbrev Range : Type 0
Range = ℕ × ℕ

abbrev tail_byte : Range
tail_byte = (0x80, 0xBF)

-- the ranges of the bytes that must follow a first byte; `none`: no character begins with it
abbrev following : ℕ → Option (List Range)
following b =
    if ltb b 0x80
    then some []
    else if ltb b 0xC2
    then none
    else if ltb b 0xE0
    then some (tail_byte ∷ [])
    else if b == 0xE0
    then some ((0xA0, 0xBF) ∷ tail_byte ∷ [])
    else if b == 0xED
    then some ((0x80, 0x9F) ∷ tail_byte ∷ [])
    else if ltb b 0xF0
    then some (tail_byte ∷ tail_byte ∷ [])
    else if b == 0xF0
    then some ((0x90, 0xBF) ∷ tail_byte ∷ tail_byte ∷ [])
    else if ltb b 0xF4
    then some (tail_byte ∷ tail_byte ∷ tail_byte ∷ [])
    else if b == 0xF4
    then some ((0x80, 0x8F) ∷ tail_byte ∷ tail_byte ∷ [])
    else none

utf8_from : List Range → Text → Bool
utf8_from [] [] = true
utf8_from (r ∷ rs) [] = false
utf8_from ((lo, hi) ∷ rs) (b ∷ bs) = leb lo b && leb b hi && utf8_from rs bs
utf8_from [] (b ∷ bs) = elim (following b) [ none ↦ false | some rs ↦ utf8_from rs bs ]

unfoldable pub is_utf8 : Text → Bool
unfolding utf8_from
is_utf8 = utf8_from []

-- é, 漢, and the emoji U+1F600 are accepted.
accepts : is_utf8 (0xC3 ∷ 0xA9 ∷ 0xE6 ∷ 0xBC ∷ 0xA2 ∷ 0xF0 ∷ 0x9F ∷ 0x98 ∷ 0x80 ∷ []) ≡ true
unfolding is_utf8
accepts = refl

-- An overlong form, a surrogate, and a cut character are not.
refuses :
    (is_utf8 (0xC0 ∷ 0x80 ∷ []) || is_utf8 (0xED ∷ 0xA0 ∷ 0x80 ∷ []) || is_utf8 (0xC3 ∷ [])) ≡ false
unfolding is_utf8
refuses = refl
