-- ===== src/Presets/Reordered.antt =====
-- The list of presets after `reorder_presets` of src-tauri/src/commands/presets.rs.
use alayaface.Prelude.{
  ◌≡◌, refl, ap, sym, ◌∙◌, subst, true, false, not, ◌&&◌, Option, some, List, [], ◌∷◌, ◌++◌,
  append-nil, Text, codes, refused, all, ok, err, holds, filter, filter_same, and_left, and_right,
  IsDistinct, Result-cases, inl, inr,
}
use alayaface.Dirs.Names.{valid_preset_name}
use alayaface.Dirs.Presets.{push_preset, read_preset_order, preset_names, sort}
use alayaface.Dirs.Order.{push_new-filter, sort-holds}
use alayaface.Dirs.Listing.{
  preset_names-holds, read_order_decoded, list_preset_names-layout, list_preset_names-holds,
  list_preset_names-IsDistinct,
}
use alayaface.Presets.{
  Preset, State, Disk, names_of, entries_of, trimmed, ordered_of, preset_list, reorder_named,
  reorder_presets,
}
use alayaface.Presets.Wanted.{wanted, push_new-wanted}
use alayaface.Presets.Managed.{IsManaged}
use alayaface.Presets.Commands.{ensured_managed}
use alayaface.Presets.Arranged.{
  all-holds, pushed, arranged-holds, arranged-IsDistinct, arranged_by_out, ordered-arranged,
}

module _ {Content : Type 0} (defaults : Text → Content) (from_str : Text → Option (List Text))
    (to_string : List Text → Text) (disk : Disk Content) where
  pushed_valid :
      (name : Text) (names : List Text)
      → valid_preset_name name ≡ true
      → push_preset record { is_dir = true; file_name = some name } names ≡ name ∷ names
  unfolding push_preset
  pushed_valid name names v = rw (push_preset, v) refl

  -- Valid names are all shown by the directory.
  preset_names-entries_of :
      (ps : List (Preset Content))
      → all valid_preset_name (names_of ps) ≡ true
      → preset_names (entries_of ps) ≡ ok (names_of ps)
  unfolding preset_names entries_of names_of
  preset_names-entries_of [] h = refl
  preset_names-entries_of (p ∷ ps) h =
      let first : valid_preset_name p.name ≡ true =
        and_left (valid_preset_name p.name) (all valid_preset_name (names_of ps)) h in
      let rest : all valid_preset_name (names_of ps) ≡ true =
        and_right (valid_preset_name p.name) (all valid_preset_name (names_of ps)) h in
      rw (preset_names-entries_of ps rest) (ap ok (pushed_valid p.name (names_of ps) first))

  listed-holds :
      (s : State Content) (existing : List Text) (id : Text)
      → IsManaged (names_of s.presets)
      → preset_list defaults from_str to_string disk s ≡ ok existing
      → holds id existing ≡ holds id (names_of s.presets)
  unfolding preset_list
  listed-holds s existing id m h =
      list_preset_names-holds from_str s.order_file (entries_of s.presets) existing id h
      ∙ sym (
          preset_names-holds id (entries_of s.presets) (names_of s.presets)
            (preset_names-entries_of s.presets m.valid))

  listed-IsDistinct :
      (s : State Content) (existing : List Text)
      → IsManaged (names_of s.presets)
      → preset_list defaults from_str to_string disk s ≡ ok existing
      → IsDistinct existing
  unfolding preset_list
  listed-IsDistinct s existing m h =
      list_preset_names-IsDistinct from_str s.order_file (entries_of s.presets) (names_of s.presets)
        existing (preset_names-entries_of s.presets m.valid) m.distinct h

  -- An order that holds the presets, each once, is the list.
  preset_list_saved :
      (s : State Content) (ordered : List Text)
      → IsManaged (names_of s.presets)
      → from_str (to_string ordered) ≡ some ordered
      → IsDistinct ordered
      → ((id : Text) → holds id ordered ≡ holds id (names_of s.presets))
      → preset_list defaults from_str to_string disk
          (record s { order_file = some (to_string ordered) })
        ≡ ok ordered
  unfolding preset_list
  preset_list_saved s ordered m e d same =
      list_preset_names-layout from_str (some (to_string ordered)) (entries_of s.presets)
        (names_of s.presets) (preset_names-entries_of s.presets m.valid)
      ∙ ap ok (rw (saved, kept, rest) (append-nil ordered))
    where
      empty_new : (id : Text) → (true && not (holds id [])) ≡ true
      empty_new id = unfold holds in refl

      saved : read_preset_order from_str (some (to_string ordered)) ≡ ordered
      saved =
          read_order_decoded from_str (to_string ordered) ordered e
          ∙ push_new-filter valid_preset_name [] ordered d
          ∙ filter_same true (λ n. valid_preset_name n && not (holds n [])) ordered
              (λ id stands.
                rw
                  (all-holds valid_preset_name id (names_of s.presets) m.valid
                    (sym (same id) ∙ stands))
                  (empty_new id))

      kept : filter (λ n. holds n (sort (names_of s.presets))) ordered ≡ ordered
      kept =
          filter_same true (λ n. holds n (sort (names_of s.presets))) ordered
            (λ id stands. sort-holds id (names_of s.presets) ∙ sym (same id) ∙ stands)

      rest : filter (λ n. not (holds n ordered)) (sort (names_of s.presets)) ≡ []
      rest =
          filter_same false (λ n. not (holds n ordered)) (sort (names_of s.presets))
            (λ id stands. ap not (same id ∙ sym (sort-holds id (names_of s.presets)) ∙ stands))

  reordered :
      (names : List Text) (s after : State Content) (existing : List Text) (done : Unit {0})
      → IsManaged (names_of s.presets)
      → preset_list defaults from_str to_string disk s ≡ ok existing
      → reorder_presets defaults from_str to_string disk names s ≡ (after, ok done)
      → after ≡ record s { order_file = some (to_string (ordered_of existing names)) }
  unfolding reorder_presets
  reordered names s after existing done m l h =
      let ran =
        sym (
          ensured_managed defaults from_str to_string disk
            (reorder_named defaults from_str to_string disk names) s m)
        ∙ h in
      elim (Result-cases disk.write) [
        | inl (unit, w) ↦ ap (λ r. r.0) (sym ran ∙ written unit w)
        | inr (e, w) ↦ failed e w ran
      ]
    where
      written :
          (unit : Unit {0})
          → disk.write ≡ ok unit
          → reorder_named defaults from_str to_string disk names s
            ≡ (record s { order_file = some (to_string (ordered_of existing names)) }, ok tt)
      written unit w = unfold reorder_named in rw (reorder_named, l, w) refl

      failed :
          {X : Type 0} (e : Text)
          → disk.write ≡ err e
          → reorder_named defaults from_str to_string disk names s ≡ (after, ok done)
          → X
      failed e w ran =
          refused s (codes "Write preset order: " ++ e)
            (unfold reorder_named in rw (reorder_named, l, w) refl) ran

  -- The presets after a successful reorder, on presets that are managed and listed: first the requested
  -- names that are presets once they are trimmed, each where it is requested first, then the other presets in
  -- the order that they had. No preset is lost or listed twice. (The order file is read back as it was
  -- written.)
  pub reorder_presets-listed :
      (names : List Text) (s after : State Content) (existing : List Text) (id : Text)
      (done : Unit {0})
      → IsManaged (names_of s.presets)
      → ((ns : List Text) → from_str (to_string ns) ≡ some ns)
      → preset_list defaults from_str to_string disk s ≡ ok existing
      → reorder_presets defaults from_str to_string disk names s ≡ (after, ok done)
      → let first = wanted existing [] names in
        (preset_list defaults from_str to_string disk after
          ≡ ok (first ++ filter (λ n. not (holds n first)) existing))
        × IsDistinct (first ++ filter (λ n. not (holds n first)) existing)
        × (holds id (first ++ filter (λ n. not (holds n first)) existing) ≡ holds id existing)
  reorder_presets-listed names s after existing id done m law l h =
      let raw = trimmed names in
      let now : ordered_of existing names
          ≡ (pushed existing raw).0
            ++ filter (λ n. not (holds n (pushed existing raw).0)) existing =
        ordered-arranged existing names ∙ arranged_by_out existing raw in
      let taken : (pushed existing raw).0 ≡ wanted existing [] names =
        unfold pushed in push_new-wanted existing names [] [] (λ k there. refl) in
      let at : ordered_of existing names
          ≡ wanted existing [] names
            ++ filter (λ n. not (holds n (wanted existing [] names))) existing =
        now ∙ ap (λ first. first ++ filter (λ n. not (holds n first)) existing) taken in
      let same = λ (k : Text).
        ap (holds k) (ordered-arranged existing names) ∙ arranged-holds existing raw k in
      let apart : IsDistinct (ordered_of existing names) =
        subst IsDistinct (sym (ordered-arranged existing names))
          (arranged-IsDistinct existing raw (listed-IsDistinct s existing m l)) in
      let shown : preset_list defaults from_str to_string disk after
          ≡ ok (ordered_of existing names) =
        ap (preset_list defaults from_str to_string disk)
          (reordered names s after existing done m l h)
        ∙ preset_list_saved s (ordered_of existing names) m (law (ordered_of existing names)) apart
            (λ k. same k ∙ listed-holds s existing k m l) in
      (shown ∙ ap ok at, subst IsDistinct at apart, ap (holds id) (sym at) ∙ same id)
