-- ===== src/Presets/Names.antt =====
-- The names of the presets after the changes that the commands of
-- src-tauri/src/commands/presets.rs make.
use alayaface.Prelude.{
  ◌≡◌, refl, ap, Bool, true, false, not, ◌&&◌, ◌||◌, none, some, List, [], ◌∷◌, ◌++◌, Text, text_eq,
  text_eq_iff, all, if◌then◌else◌, holds, filter, IsDistinct, arith,
}
use alayaface.Presets.{Preset, names_of, find, replace, renamed}

-- A test that passes on every item passes on those that are kept.
pub all-filter : (p q : Text → Bool) (xs : List Text) → all p xs ≡ true → all p (filter q xs) ≡ true
all-filter p q [] h = refl
all-filter p q (x ∷ xs) h = ground (arith, all-filter p q xs)

abbrev pub rename_in : Text → Text → List Text → List Text
rename_in old new [] = []
rename_in old new (n ∷ ns) = (if text_eq old n then new else n) ∷ rename_in old new ns

pub all-rename_in :
    (p : Text → Bool) (old new : Text) (ns : List Text)
    → p new ≡ true
    → all p ns ≡ true
    → all p (rename_in old new ns) ≡ true
all-rename_in p old new [] e h = refl
all-rename_in p old new (n ∷ ns) e h = ground (arith, all-rename_in p old new ns)

pub holds-rename_in :
    (old new id : Text) (ns : List Text)
    → holds id (rename_in old new ns)
      ≡ ((text_eq id new && holds old ns) || (holds id ns && not (text_eq old id)))
unfolding holds
holds-rename_in old new id [] = ground arith
holds-rename_in old new id (n ∷ ns) =
    ground (
      arith,
      holds-rename_in old new id ns,
      text_eq_iff old n,
      text_eq_iff id n,
      text_eq_iff old id,
    )

pub IsDistinct-rename_in :
    (old new : Text) (ns : List Text)
    → holds new ns ≡ false
    → IsDistinct ns
    → IsDistinct (rename_in old new ns)
unfolding holds
IsDistinct-rename_in old new [] h d = tt
IsDistinct-rename_in old new (n ∷ ns) h d = (
  ground (
    arith,
    d.0,
    holds-rename_in old new new ns,
    holds-rename_in old new n ns,
    text_eq_iff old n,
    text_eq_iff n new,
    text_eq_iff new n,
  ),
  IsDistinct-rename_in old new ns (ground arith) d.1,
)

module _ {Content : Type 0} where
  pub find-none :
      (name : Text) (ps : List (Preset Content))
      → find name ps ≡ none
      → holds name (names_of ps) ≡ false
  unfolding find names_of holds
  find-none name [] h = refl
  find-none name (p ∷ ps) h = ground (arith, find-none name ps)

  pub find-some :
      (name : Text) (c : Content) (ps : List (Preset Content))
      → find name ps ≡ some c
      → holds name (names_of ps) ≡ true
  unfolding find names_of holds
  find-some name c [] h = cc
  find-some name c (p ∷ ps) h = ground (arith, find-some name c ps)

  pub names_of-append :
      (ps qs : List (Preset Content)) → names_of (ps ++ qs) ≡ names_of ps ++ names_of qs
  unfolding names_of
  names_of-append [] qs = refl
  names_of-append (p ∷ ps) qs = ap (◌∷◌ p.name) (names_of-append ps qs)

  pub names_of-kept :
      (name : Text) (c : Content) (ps : List (Preset Content))
      → names_of (replace name (some c) ps) ≡ names_of ps
  unfolding names_of replace
  names_of-kept name c [] = refl
  names_of-kept name c (p ∷ ps) = ground (arith, names_of-kept name c ps)

  pub names_of-gone :
      (name : Text) (ps : List (Preset Content))
      → names_of (replace name none ps) ≡ filter (λ n. not (text_eq name n)) (names_of ps)
  unfolding names_of replace
  names_of-gone name [] = refl
  names_of-gone name (p ∷ ps) = ground (arith, names_of-gone name ps)

  pub names_of-renamed :
      (old new : Text) (ps : List (Preset Content))
      → names_of (renamed old new ps) ≡ rename_in old new (names_of ps)
  unfolding names_of renamed
  names_of-renamed old new [] = refl
  names_of-renamed old new (p ∷ ps) = ground (arith, names_of-renamed old new ps)
