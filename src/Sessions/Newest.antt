-- ===== src/Sessions/Newest.antt =====
-- The order of `list_session_dirs` of src-tauri/src/commands/sessions.rs.
use mathlib.Core.List.{Perm}
use mathlib.Core.List.Perm
use alayaface.Prelude.{
  not, ◌&&◌, ltb, ap₂, ℕ, ◌≡◌, refl, sym, ap, ◌∙◌, Bool, true, false, Option, none, some, List, [],
  ◌∷◌, Text, filter, all, Result, ok, Bool-cases, inl, inr, arith, and_left, and_right,
}
use alayaface.Spawning.{SpawnSerde}
use alayaface.Sessions.Listing.{
  SessionEntry, SessionDirInfo, not_older, insert_entry, sort_entries, readable, is_session,
  info_of, list_entries, list_session_dirs,
}

abbrev newer : SessionEntry → SessionEntry → Bool
newer e x = not_older (e.modified) (x.modified)

-- the order that the sort leaves
abbrev IsSorted : List SessionEntry → Type 0
IsSorted [] = Unit
IsSorted (e ∷ es) = (all (newer e) es ≡ true) × IsSorted es

not_older_total : (a b : Option ℕ) → not_older a b ≡ false → not_older b a ≡ true
unfolding not_older
not_older_total a none h = cc
not_older_total none (some n) h = refl
not_older_total (some m) (some n) h = ground arith

not_older_trans :
    (a b c : Option ℕ) → not_older a b ≡ true → not_older b c ≡ true → not_older a c ≡ true
unfolding not_older
not_older_trans a b none h k = refl
not_older_trans none none (some n) h k = k
not_older_trans none (some m) (some n) h k = h
not_older_trans (some l) none (some n) h k = cc
not_older_trans (some l) (some m) (some n) h k = ground arith

all-newer :
    (e x : SessionEntry) (xs : List SessionEntry)
    → newer e x ≡ true
    → all (newer x) xs ≡ true
    → all (newer e) xs ≡ true
all-newer e x [] h k = refl
all-newer e x (y ∷ ys) h k =
    rw
      (not_older_trans e.modified x.modified y.modified h
        (and_left (newer x y) (all (newer x) ys) k))
      (all-newer e x ys h (and_right (newer x y) (all (newer x) ys) k))

all-insert_entry :
    (p : SessionEntry → Bool) (e : SessionEntry) (xs : List SessionEntry)
    → p e ≡ true
    → all p xs ≡ true
    → all p (insert_entry e xs) ≡ true
unfolding insert_entry
all-insert_entry p e [] h k = rw h refl
all-insert_entry p e (x ∷ xs) h k = elim (Bool-cases (newer e x)) [
  | inl first ↦ rw (insert_entry, first, h) k
  | inr later ↦
      rw (insert_entry, later, and_left (p x) (all p xs) k)
        (all-insert_entry p e xs h (and_right (p x) (all p xs) k))
]

insert_entry-IsSorted :
    (e : SessionEntry) (xs : List SessionEntry) → IsSorted xs → IsSorted (insert_entry e xs)
unfolding insert_entry
insert_entry-IsSorted e [] sorted = (refl, tt)
insert_entry-IsSorted e (x ∷ xs) (first, sorted) = elim (Bool-cases (newer e x)) [
  | inl before ↦
      rw (insert_entry, before) ((rw before (all-newer e x xs before first), (first, sorted)))
  | inr later ↦
      rw (insert_entry, later)
        (
          all-insert_entry (newer x) e xs (not_older_total e.modified x.modified later) first,
          insert_entry-IsSorted e xs sorted,
        )
]

sort_entries-IsSorted : (es : List SessionEntry) → IsSorted (sort_entries es)
unfolding sort_entries
sort_entries-IsSorted [] = tt
sort_entries-IsSorted (e ∷ es) =
    insert_entry-IsSorted e (sort_entries es) (sort_entries-IsSorted es)

all-filter :
    (q p : SessionEntry → Bool) (xs : List SessionEntry)
    → all q xs ≡ true
    → all q (filter p xs) ≡ true
all-filter q p [] h = refl
all-filter q p (x ∷ xs) h = elim (Bool-cases (p x)) [
  | inl e ↦
      rw e (rw (and_left (q x) (all q xs) h) (all-filter q p xs (and_right (q x) (all q xs) h)))
  | inr e ↦ rw e (all-filter q p xs (and_right (q x) (all q xs) h))
]

insert_front :
    (e : SessionEntry) (xs : List SessionEntry)
    → all (newer e) xs ≡ true
    → insert_entry e xs ≡ e ∷ xs
unfolding insert_entry
insert_front e [] h = refl
insert_front e (x ∷ xs) h = rw (insert_entry, and_left (newer e x) (all (newer e) xs) h) refl

abbrev with_entry : Bool → SessionEntry → List SessionEntry → List SessionEntry
with_entry true e xs = insert_entry e xs
with_entry false e xs = xs

filter-front :
    (p : SessionEntry → Bool) (e : SessionEntry) (xs : List SessionEntry)
    → all (newer e) xs ≡ true
    → filter p (e ∷ xs) ≡ with_entry (p e) e (filter p xs)
filter-front p e xs h = elim (Bool-cases (p e)) [
  | inl kept ↦ rw kept (sym (insert_front e (filter p xs) (all-filter (newer e) p xs h)))
  | inr kept ↦ rw kept refl
]

insert_later :
    (e x : SessionEntry) (xs : List SessionEntry)
    → newer e x ≡ false
    → insert_entry e (x ∷ xs) ≡ x ∷ insert_entry e xs
unfolding insert_entry
insert_later e x xs later = rw (insert_entry, later) refl

with_entry_later :
    (b : Bool) (e x : SessionEntry) (xs : List SessionEntry)
    → newer e x ≡ false
    → x ∷ with_entry b e xs ≡ with_entry b e (x ∷ xs)
with_entry_later true e x xs later = sym (insert_later e x xs later)
with_entry_later false e x xs later = refl

-- An insertion and a filter commute on entries that are in order.
filter-insert_entry :
    (p : SessionEntry → Bool) (e : SessionEntry) (xs : List SessionEntry)
    → IsSorted xs
    → filter p (insert_entry e xs) ≡ with_entry (p e) e (filter p xs)
filter-insert_entry p e [] sorted =
    ap (filter p) (insert_front e [] refl) ∙ filter-front p e [] refl
filter-insert_entry p e (x ∷ xs) (first, sorted) = elim (Bool-cases (newer e x)) [
  | inl before ↦
      let in_front : all (newer e) (x ∷ xs) ≡ true = rw before (all-newer e x xs before first) in
      ap (filter p) (insert_front e (x ∷ xs) in_front) ∙ filter-front p e (x ∷ xs) in_front
  | inr later ↦ ap (filter p) (insert_later e x xs later) ∙ elim (Bool-cases (p x)) [
    | inl kept ↦ rw kept (
        ap (◌∷◌ x) (filter-insert_entry p e xs sorted)
        ∙ with_entry_later (p e) e x (filter p xs) later)
    | inr kept ↦ rw kept (filter-insert_entry p e xs sorted)
  ]
]

filter-sort_entries :
    (p : SessionEntry → Bool) (es : List SessionEntry)
    → filter p (sort_entries es) ≡ sort_entries (filter p es)
unfolding sort_entries
filter-sort_entries p [] = refl
filter-sort_entries p (e ∷ es) =
    filter-insert_entry p e (sort_entries es) (sort_entries-IsSorted es) ∙ elim (Bool-cases (p e)) [
      | inl kept ↦ rw kept (ap (insert_entry e) (filter-sort_entries p es))
      | inr kept ↦ rw kept (filter-sort_entries p es)
    ]

-- The first time is later than the second, or the only one that is known.
abbrev pub is_later : Option ℕ → Option ℕ → Bool
is_later none b = false
is_later (some n) none = true
is_later (some n) (some m) = ltb m n

abbrev pub no_later : SessionEntry → SessionEntry → Bool
no_later e x = not (is_later x.modified e.modified)

-- No entry was changed later than one before it, and those without a time are last.
abbrev pub IsNewestFirst : List SessionEntry → Type 0
IsNewestFirst [] = Unit
IsNewestFirst (e ∷ es) = (all (no_later e) es ≡ true) × IsNewestFirst es

not_older-is_later : (a b : Option ℕ) → not_older a b ≡ not (is_later b a)
unfolding not_older
not_older-is_later a none = refl
not_older-is_later none (some n) = refl
not_older-is_later (some m) (some n) = ground arith

all-no_later : (e : SessionEntry) (es : List SessionEntry) → all (newer e) es ≡ all (no_later e) es
all-no_later e [] = refl
all-no_later e (x ∷ xs) = ap₂ ◌&&◌ (not_older-is_later e.modified x.modified) (all-no_later e xs)

IsSorted-IsNewestFirst : (es : List SessionEntry) → IsSorted es → IsNewestFirst es
IsSorted-IsNewestFirst [] sorted = tt
IsSorted-IsNewestFirst (e ∷ es) (first, rest) =
    (sym (all-no_later e es) ∙ first, IsSorted-IsNewestFirst es rest)

insert_entry-Perm : (e : SessionEntry) (xs : List SessionEntry) → Perm (insert_entry e xs) (e ∷ xs)
unfolding insert_entry
insert_entry-Perm e [] = Perm.refl (e ∷ [])
insert_entry-Perm e (x ∷ xs) = elim (Bool-cases (newer e x)) [
  | inl before ↦ rw (insert_entry, before) (Perm.refl (e ∷ x ∷ xs))
  | inr later ↦
      rw (insert_entry, later)
        (Perm.trans (Perm.cons x (insert_entry-Perm e xs)) (Perm.swap e x xs))
]

sort_entries-Perm : (es : List SessionEntry) → Perm (sort_entries es) es
unfolding sort_entries
sort_entries-Perm [] = Perm.refl []
sort_entries-Perm (e ∷ es) =
    Perm.trans (insert_entry-Perm e (sort_entries es)) (Perm.cons e (sort_entries-Perm es))

module _ (serde : SpawnSerde) (label_doc : Text → Option Text) where
  -- what is told of each entry
  abbrev pub infos : List SessionEntry → List SessionDirInfo
  infos [] = []
  infos (e ∷ es) = info_of serde label_doc e ∷ infos es

  list_entries-filter :
      (es : List SessionEntry) → list_entries serde label_doc es ≡ infos (filter is_session es)
  unfolding list_entries
  list_entries-filter [] = refl
  list_entries-filter (e ∷ es) = elim (Bool-cases (is_session e)) [
    | inl kept ↦
        rw (list_entries, kept) (ap (◌∷◌ (info_of serde label_doc e)) (list_entries-filter es))
    | inr kept ↦ rw (list_entries, kept) (list_entries-filter es)
  ]

  -- A sessions directory that can be read: what is listed are all its entries that can be read, are
  -- directories and have a session file, each as often as it is there. The one that was changed last comes
  -- first, and those whose time is not known are last.
  pub list_session_dirs-IsNewestFirst :
      (entries : List (Result Text SessionEntry))
      → (listed : List SessionEntry) × (list_session_dirs serde label_doc (some (ok entries))
          ≡ ok (infos listed))
        × Perm listed (filter is_session (readable entries))
        × IsNewestFirst listed
  unfolding list_session_dirs
  list_session_dirs-IsNewestFirst entries = (
    sort_entries (filter is_session (readable entries)),
    ap ok (
        list_entries-filter (sort_entries (readable entries))
        ∙ ap infos (filter-sort_entries is_session (readable entries))),
    sort_entries-Perm (filter is_session (readable entries)),
    IsSorted-IsNewestFirst (sort_entries (filter is_session (readable entries)))
        (sort_entries-IsSorted (filter is_session (readable entries))),
  )
