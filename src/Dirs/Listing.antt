-- ===== src/Dirs/Listing.antt =====
-- The list of presets that src-tauri/src/dirs.rs shows the client, and the directory of one of them.
use alayaface.Prelude.{
  ◌≡◌, refl, ap, ap₂, sym, ◌∙◌, subst, Bool, true, false, not, ◌&&◌, ◌||◌, Option, none, some, List,
  [], ◌∷◌, ◌++◌, Text, text_eq, any, Result, ok, err, ok_of_bind, holds, filter, IsDistinct,
  holds-append, IsDistinct-append, holds-filter, IsDistinct-filter, filter-agree, arith,
  Option-cases, inl, inr,
}
use alayaface.Dirs.Names.{valid_preset_name}
use alayaface.Dirs.Presets.{
  push_new, read_preset_order, DirEntry, push_preset, preset_names, sort, apply_order,
  list_preset_names,
}
use alayaface.Dirs.Order.{
  push_new-holds, push_new-seen, push_new-IsDistinct, push_new-filter, sort-holds, sort-IsDistinct,
}

pub read_order_decoded :
    (from_str : Text → Option (List Text)) (text : Text) (raw : List Text)
    → from_str text ≡ some raw
    → read_preset_order from_str (some text) ≡ (push_new valid_preset_name [] raw).0
unfolding read_preset_order
read_order_decoded from_str text raw e = rw (read_preset_order, e) refl

read_order_corrupt :
    (from_str : Text → Option (List Text)) (text : Text)
    → from_str text ≡ none
    → read_preset_order from_str (some text) ≡ []
unfolding read_preset_order
read_order_corrupt from_str text e = rw (read_preset_order, e) refl

read_preset_order-IsDistinct :
    (from_str : Text → Option (List Text)) (file : Option Text)
    → IsDistinct (read_preset_order from_str file)
unfolding read_preset_order
read_preset_order-IsDistinct from_str none = tt
read_preset_order-IsDistinct from_str (some text) = elim (Option-cases (from_str text)) [
  | inl e ↦ rw (read_order_corrupt from_str text e) tt
  | inr (raw, e) ↦
      rw (read_order_decoded from_str text raw e) (push_new-IsDistinct valid_preset_name [] raw)
]

-- The saved order of a file that decodes holds exactly the valid names of the file, each once.
pub read_preset_order-holds :
    (from_str : Text → Option (List Text)) (text : Text) (raw : List Text) (name : Text)
    → from_str text ≡ some raw
    → (holds name (read_preset_order from_str (some text))
        ≡ (holds name raw && valid_preset_name name))
      × IsDistinct (read_preset_order from_str (some text))
unfolding holds
read_preset_order-holds from_str text raw name e = (
  rw (read_order_decoded from_str text raw e, push_new-holds valid_preset_name name [] raw)
      (ground arith),
  read_preset_order-IsDistinct from_str (some text),
)

filter-true : (xs : List Text) → filter (λ n. not (holds n [])) xs ≡ xs
unfolding holds
filter-true [] = refl
filter-true (x ∷ xs) = ap (◌∷◌ x) (filter-true xs)

-- Of the presets, the set after the loop holds those that are in the saved order.
seen_presets :
    (ordered names : List Text) (n : Text)
    → holds n names ≡ true
    → not (holds n (push_new (λ m. holds m names) [] ordered).1) ≡ not (holds n ordered)
unfolding holds
seen_presets ordered names n stands =
    rw
      (
        push_new-seen (λ m. holds m names) n [] ordered,
        push_new-holds (λ m. holds m names) n [] ordered,
        stands,
      )
      (ground arith)

loop-filter :
    (ordered names : List Text)
    → IsDistinct ordered
    → (push_new (λ n. holds n names) [] ordered).0
        ++ filter (λ n. not (holds n (push_new (λ m. holds m names) [] ordered).1)) names
      ≡ filter (λ n. holds n names) ordered ++ filter (λ n. not (holds n ordered)) names
loop-filter ordered names d =
    ap₂ ◌++◌
      (push_new-filter (λ n. holds n names) [] ordered d
        ∙ filter-agree (λ n. holds n names && not (holds n [])) (λ n. holds n names) ordered
            (λ n stands. unfold holds in ground arith))
      (filter-agree (λ n. not (holds n (push_new (λ m. holds m names) [] ordered).1))
        (λ n. not (holds n ordered)) names (λ n stands. seen_presets ordered names n stands))

apply_order-filter :
    (ordered names : List Text)
    → IsDistinct ordered
    → apply_order ordered names
      ≡ filter (λ n. holds n names) ordered ++ filter (λ n. not (holds n ordered)) names
unfolding apply_order
apply_order-filter [] names d = sym (filter-true names)
apply_order-filter (o ∷ os) names d = loop-filter (o ∷ os) names d

-- Where the presets directory is read without an error, the list is the saved names that are presets, in
-- the saved order, then the presets that the saved order lacks, in the order of `sort`.
pub list_preset_names-layout :
    (from_str : Text → Option (List Text)) (file : Option Text)
    (entries : List (Result Text DirEntry)) (names : List Text)
    → preset_names entries ≡ ok names
    → (list_preset_names from_str file (some (ok entries))
        ≡ ok (
            filter (λ n. holds n (sort names)) (read_preset_order from_str file)
            ++ filter (λ n. not (holds n (read_preset_order from_str file))) (sort names)))
unfolding list_preset_names
list_preset_names-layout from_str file entries names e = rw e (
    ap ok (
      apply_order-filter (read_preset_order from_str file) (sort names)
        (read_preset_order-IsDistinct from_str file)))

-- The entry is a directory with the name, and the name is valid.
unfoldable pub is_preset : Text → Result Text DirEntry → Bool
is_preset name (err e) = false
is_preset name (ok entry) = elim entry.file_name [
  | none ↦ false
  | some found ↦ entry.is_dir && valid_preset_name found && text_eq name found
]

or_rest : (r s : Bool) → ((r && s) || (s && not r)) ≡ s
or_rest r s = ground arith

apply_order-holds :
    (name : Text) (ordered names : List Text)
    → IsDistinct ordered
    → holds name (apply_order ordered names) ≡ holds name names
apply_order-holds name ordered names d =
    rw
      (
        apply_order-filter ordered names d,
        holds-append name (filter (λ n. holds n names) ordered)
            (filter (λ n. not (holds n ordered)) names),
        holds-filter (λ n. holds n names) name ordered,
        holds-filter (λ n. not (holds n ordered)) name names,
      )
      (or_rest (holds name ordered) (holds name names))

push_preset-holds :
    (name : Text) (entry : DirEntry) (names : List Text)
    → holds name (push_preset entry names) ≡ (is_preset name (ok entry) || holds name names)
unfolding push_preset is_preset holds
push_preset-holds name entry names = elim (Option-cases entry.file_name) [
  | inl e ↦ rw (push_preset, is_preset, e) refl
  | inr (found, e) ↦ rw (push_preset, is_preset, e) (ground arith)
]

pub preset_names-holds :
    (name : Text) (entries : List (Result Text DirEntry)) (names : List Text)
    → preset_names entries ≡ ok names
    → holds name names ≡ any (is_preset name) entries
unfolding preset_names is_preset holds
preset_names-holds name [] names h = let same : [] ≡ names = ground arith in rw (sym same) refl
preset_names-holds name (err e ∷ entries) names h = cc
preset_names-holds name (ok entry ∷ entries) names h =
    let (before, e, last) = ok_of_bind (preset_names entries) (λ ns. ok (push_preset entry ns)) h in
    let same : push_preset entry before ≡ names = cc last in
    rw (sym same, push_preset-holds name entry before, preset_names-holds name entries before e)
      refl

-- Whatever order is saved, the list holds the presets of the directory and no other name: those that are
-- the valid UTF-8 name of a directory in it.
pub list_preset_names-holds :
    (from_str : Text → Option (List Text)) (file : Option Text)
    (entries : List (Result Text DirEntry)) (out : List Text) (name : Text)
    → list_preset_names from_str file (some (ok entries)) ≡ ok out
    → holds name out ≡ any (is_preset name) entries
list_preset_names-holds from_str file entries out name h =
    let (names, e, last) =
      ok_of_bind {b = out} (preset_names entries)
        (λ ns. ok (apply_order (read_preset_order from_str file) (sort ns)))
        (unfold list_preset_names in h) in
    let same : apply_order (read_preset_order from_str file) (sort names) ≡ out = cc last in
    subst (λ o. holds name o ≡ any (is_preset name) entries) same
      (apply_order-holds name (read_preset_order from_str file) (sort names)
          (read_preset_order-IsDistinct from_str file)
        ∙ sort-holds name names
        ∙ preset_names-holds name entries names e)

apart : (h s t : Bool) → (h && s) ≡ true → (t && not h) ≡ false
apart h s t e = ground arith

layout-IsDistinct :
    (saved names : List Text)
    → IsDistinct saved
    → IsDistinct names
    → IsDistinct (filter (λ n. holds n names) saved ++ filter (λ n. not (holds n saved)) names)
layout-IsDistinct saved names ds dn =
    IsDistinct-append (filter (λ n. holds n names) saved) (filter (λ n. not (holds n saved)) names)
      (IsDistinct-filter (λ n. holds n names) saved ds)
      (IsDistinct-filter (λ n. not (holds n saved)) names dn)
      (λ id stands.
        holds-filter (λ n. not (holds n saved)) id names
        ∙ apart (holds id saved) (holds id names) (holds id names)
            (sym (holds-filter (λ n. holds n names) id saved) ∙ stands))

-- Whatever order is saved, the list has no name twice if the directory has none twice.
pub list_preset_names-IsDistinct :
    (from_str : Text → Option (List Text)) (file : Option Text)
    (entries : List (Result Text DirEntry)) (names out : List Text)
    → preset_names entries ≡ ok names
    → IsDistinct names
    → list_preset_names from_str file (some (ok entries)) ≡ ok out
    → IsDistinct out
list_preset_names-IsDistinct from_str file entries names out e d h =
    let saved = read_preset_order from_str file in
    let both : ok (
          filter (λ n. holds n (sort names)) saved
          ++ filter (λ n. not (holds n saved)) (sort names))
        ≡ ok out =
      sym (list_preset_names-layout from_str file entries names e) ∙ h in
    let same : filter (λ n. holds n (sort names)) saved
          ++ filter (λ n. not (holds n saved)) (sort names)
        ≡ out =
      cc both in
    subst IsDistinct same (
      layout-IsDistinct saved (sort names) (read_preset_order-IsDistinct from_str file)
        (sort-IsDistinct names d))
