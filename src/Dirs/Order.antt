-- ===== src/Dirs/Order.antt =====
-- The order of presets in src-tauri/src/dirs.rs: what the loops over names keep, and the list that
-- the client is shown.
use alayaface.Prelude.{
  ◌≡◌, refl, ap, ◌∙◌, Bool, true, false, not, ◌&&◌, ◌||◌, List, [], ◌∷◌, Text, text_eq,
  text_eq_refl, text_eq_iff, eq_of_text_eq, holds, filter, IsDistinct, filter-agree, arith,
  Bool-cases, inl, inr,
}
use alayaface.Dirs.Presets.{push_new, text_leb, insert_sorted, sort}

-- A test gives equal texts the same answer.
test-holds : (test : Text → Bool) (id n : Text) → text_eq id n ≡ true → test id ≡ test n
test-holds test id n e = ap test (eq_of_text_eq id n e)

push_new-fresh :
    (test : Text → Bool) (seen ns : List Text) (n : Text)
    → (test n && not (holds n seen)) ≡ true
    → push_new test seen (n ∷ ns)
      ≡ (n ∷ (push_new test (n ∷ seen) ns).0, (push_new test (n ∷ seen) ns).1)
unfolding push_new
push_new-fresh test seen ns n fresh = rw (push_new, fresh) refl

push_new-stale :
    (test : Text → Bool) (seen ns : List Text) (n : Text)
    → (test n && not (holds n seen)) ≡ false
    → push_new test seen (n ∷ ns) ≡ push_new test seen ns
unfolding push_new
push_new-stale test seen ns n stale = rw (push_new, stale) refl

pub push_new-holds :
    (test : Text → Bool) (id : Text) (seen ns : List Text)
    → holds id (push_new test seen ns).0 ≡ (holds id ns && test id && not (holds id seen))
unfolding holds
push_new-holds test id seen [] = unfold push_new in refl
push_new-holds test id seen (n ∷ ns) = elim (Bool-cases (test n && not (holds n seen))) [
  | inl fresh ↦
      rw (push_new-fresh test seen ns n fresh, push_new-holds test id (n ∷ seen) ns)
        (elim (Bool-cases (text_eq id n)) [
          | inl e ↦
              let tested : test id ≡ test n = test-holds test id n e in
              let stood : holds id seen ≡ holds n seen = test-holds (λ t. holds t seen) id n e in
              ground arith
          | inr e ↦ ground arith
        ])
  | inr stale ↦
      rw (push_new-stale test seen ns n stale, push_new-holds test id seen ns)
        (elim (Bool-cases (text_eq id n)) [
          | inl e ↦
              let tested : test id ≡ test n = test-holds test id n e in
              let stood : holds id seen ≡ holds n seen = test-holds (λ t. holds t seen) id n e in
              ground arith
          | inr e ↦ ground arith
        ])
]

-- The set after the loop holds what was pushed.
pub push_new-seen :
    (test : Text → Bool) (id : Text) (seen ns : List Text)
    → holds id (push_new test seen ns).1 ≡ (holds id seen || holds id (push_new test seen ns).0)
unfolding holds
push_new-seen test id seen [] = unfold push_new in ground arith
push_new-seen test id seen (n ∷ ns) = elim (Bool-cases (test n && not (holds n seen))) [
  | inl fresh ↦
      rw (push_new-fresh test seen ns n fresh, push_new-seen test id (n ∷ seen) ns) (ground arith)
  | inr stale ↦ rw (push_new-stale test seen ns n stale) (push_new-seen test id seen ns)
]

and_false : (a b c : Bool) → (a && b && not (true || c)) ≡ false
and_false a b c = ground arith

pub push_new-IsDistinct :
    (test : Text → Bool) (seen ns : List Text) → IsDistinct (push_new test seen ns).0
unfolding holds
push_new-IsDistinct test seen [] = unfold push_new in tt
push_new-IsDistinct test seen (n ∷ ns) = elim (Bool-cases (test n && not (holds n seen))) [
  | inl fresh ↦ rw (push_new-fresh test seen ns n fresh) (
    push_new-holds test n (n ∷ seen) ns
        ∙ rw (holds, text_eq_refl n) (and_false (holds n ns) (test n) (holds n seen)),
    push_new-IsDistinct test (n ∷ seen) ns,
  )
  | inr stale ↦ rw (push_new-stale test seen ns n stale) (push_new-IsDistinct test seen ns)
]

other :
    (id n : Text) (ns : List Text) → holds n ns ≡ false → holds id ns ≡ true → text_eq id n ≡ false
other id n ns out stands = elim (Bool-cases (text_eq id n)) [
  | inl e ↦
      let same : holds id ns ≡ holds n ns = test-holds (λ t. holds t ns) id n e in ground arith
  | inr e ↦ e
]

-- Of distinct names, the loop keeps those that pass the test and are not in the set.
pub push_new-filter :
    (test : Text → Bool) (seen ns : List Text)
    → IsDistinct ns
    → (push_new test seen ns).0 ≡ filter (λ n. test n && not (holds n seen)) ns
unfolding holds
push_new-filter test seen [] d = unfold push_new in refl
push_new-filter test seen (n ∷ ns) d = elim (Bool-cases (test n && not (holds n seen))) [
  | inl fresh ↦
      rw (push_new-fresh test seen ns n fresh, fresh, push_new-filter test (n ∷ seen) ns d.1)
        (ap (◌∷◌ n) (
          filter-agree (λ m. test m && not (holds m (n ∷ seen))) (λ m. test m && not (holds m seen))
            ns (λ m stands. rw (holds, other m n ns d.0 stands) refl)))
  | inr stale ↦ rw (push_new-stale test seen ns n stale, stale) (push_new-filter test seen ns d.1)
]

insert_sorted-holds :
    (id name : Text) (ns : List Text)
    → holds id (insert_sorted name ns) ≡ (text_eq id name || holds id ns)
unfolding insert_sorted holds
insert_sorted-holds id name [] = refl
insert_sorted-holds id name (n ∷ ns) = ground (arith, insert_sorted-holds id name ns)

pub sort-holds : (id : Text) (ns : List Text) → holds id (sort ns) ≡ holds id ns
unfolding sort holds
sort-holds id [] = refl
sort-holds id (n ∷ ns) =
    insert_sorted-holds id n (sort ns) ∙ ap (◌||◌ (text_eq id n)) (sort-holds id ns)

insert_sorted-IsDistinct :
    (name : Text) (ns : List Text)
    → holds name ns ≡ false
    → IsDistinct ns
    → IsDistinct (insert_sorted name ns)
unfolding insert_sorted holds
insert_sorted-IsDistinct name [] h d = (refl, tt)
insert_sorted-IsDistinct name (n ∷ ns) h d = elim (Bool-cases (text_leb name n)) [
  | inl e ↦ rw e (h, d)
  | inr e ↦ rw e (
    rw (insert_sorted-holds n name ns)
        (ground (arith, d.0, text_eq_iff n name, text_eq_iff name n)),
    insert_sorted-IsDistinct name ns (ground arith) d.1,
  )
]

pub sort-IsDistinct : (ns : List Text) → IsDistinct ns → IsDistinct (sort ns)
unfolding sort
sort-IsDistinct [] d = tt
sort-IsDistinct (n ∷ ns) d =
    insert_sorted-IsDistinct n (sort ns) (sort-holds n ns ∙ d.0) (sort-IsDistinct ns d.1)
