-- ===== src/Pending/Evict.antt =====
-- The loop that evicts, and the lists of ids that it works on.
use alayaface.Prelude.{
  ◌≤◌, ◌≡◌, refl, true, not, ◌&&◌, inl, inr, List, [], ◌∷◌, arith, Text, text_eq, text_eq_iff,
  length, ltb, order_tests, ◌∙◌, Bool-cases,
}
use alayaface.Prelude.{holds, IsDistinct}
use alayaface.Pending.{NameMap, without, max_pending_commands, evict, retain_ne}

pub evict_fits :
    (map : NameMap) (order : List Text)
    → length order ≤ max_pending_commands
    → evict map order ≡ record { map = map; order = order }
unfolding evict
evict_fits map [] h = refl
evict_fits map (x ∷ xs) h = ground arith

evict_step :
    (map : NameMap) (old : Text) (order : List Text)
    → ltb max_pending_commands (length (old ∷ order)) ≡ true
    → evict map (old ∷ order) ≡ evict (without old map) order
unfolding evict
evict_step map old order h = rw (evict, h)

-- One id too many: the oldest goes.
pub evict_full :
    (map : NameMap) (old : Text) (order : List Text)
    → length order ≡ max_pending_commands
    → evict map (old ∷ order) ≡ record { map = without old map; order = order }
evict_full map old order h =
    evict_step map old order (omega (order_tests, h))
    ∙ evict_fits (without old map) order (omega (arith, h))

pub holds-retain_ne :
    (id j : Text) (xs : List Text) → holds j (retain_ne id xs) ≡ (not (text_eq id j) && holds j xs)
unfolding holds retain_ne
holds-retain_ne id j [] = ground arith
holds-retain_ne id j (x ∷ xs) =
    ground (arith, holds-retain_ne id j xs, text_eq_iff id j, text_eq_iff id x, text_eq_iff j x)

pub IsDistinct-retain_ne :
    (id : Text) (xs : List Text) → IsDistinct xs → IsDistinct (retain_ne id xs)
unfolding retain_ne
IsDistinct-retain_ne id [] d = tt
IsDistinct-retain_ne id (x ∷ xs) d =
    let ih = IsDistinct-retain_ne id xs d.1 in
    elim (Bool-cases (text_eq id x)) [
      | inl e ↦ rw e ih
      | inr e ↦ rw e (ground (arith, holds-retain_ne id x xs), ih)
    ]

pub length-retain_ne : (id : Text) (xs : List Text) → length (retain_ne id xs) ≤ length xs
unfolding retain_ne
length-retain_ne id [] = omega arith
length-retain_ne id (x ∷ xs) = ground (arith, length-retain_ne id xs)
