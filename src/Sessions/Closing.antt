-- ===== src/Sessions/Closing.antt =====
-- Which sessions `close_all_sessions` of src-tauri/src/commands/sessions.rs leaves.
use alayaface.Prelude.{
  ◌≡◌, refl, sym, ap, ◌∙◌, Bool, true, false, ◌||◌, Option, none, some, Option-cases, List, [], ◌∷◌,
  Text, text_eq, text_eq_iff, text_eq_refl, eq_of_text_eq, is_empty, if◌then◌else◌, Bool-cases, inl,
  inr, holds, IsDistinct, ok, arith,
}
use alayaface.Sessions.{
  SessionHandle, State, or_empty, without, get, close, owned_ids, close_each, close_all_sessions,
}

abbrev pub keys : List (Text × SessionHandle) → List Text
keys [] = []
keys ((key, h) ∷ rest) = key ∷ keys rest

-- The client owns the session, or does not say who it is.
abbrev pub is_owned : Text → SessionHandle → Bool
is_owned owner h = is_empty owner || text_eq h.owner owner

-- the sessions of the other clients
unfoldable pub others : Text → List (Text × SessionHandle) → List (Text × SessionHandle)
others owner [] = []
others owner ((key, h) ∷ rest) =
    let left = others owner rest in if is_owned owner h then left else (key, h) ∷ left

unfoldable without_all : List Text → List (Text × SessionHandle) → List (Text × SessionHandle)
unfolding holds
without_all ids [] = []
without_all ids ((key, h) ∷ rest) =
    let left = without_all ids rest in if holds key ids then left else (key, h) ∷ left

pub without_missing :
    (id : Text) (m : List (Text × SessionHandle)) → get id m ≡ none → without id m ≡ m
unfolding get without
without_missing id [] h = refl
without_missing id ((key, handle) ∷ rest) h = elim (Bool-cases (text_eq id key)) [
  | inl e ↦ let no : some handle ≡ none = sym (rw e refl) ∙ h in cc
  | inr e ↦ rw (e, without_missing id rest (sym (rw e refl) ∙ h)) refl
]

close-sessions :
    (id : Text) (s : State) → (close id s).0 ≡ record s { sessions = without id s.sessions }
unfolding close
close-sessions id s = elim (Option-cases (get id s.sessions)) [
  | inl e ↦ rw (close, e, without_missing id s.sessions e) refl
  | inr (h, e) ↦ rw (close, e) refl
]

or_true : (b : Bool) → (b || true) ≡ true
or_true true = refl
or_true false = refl

without_all-nil : (m : List (Text × SessionHandle)) → without_all [] m ≡ m
unfolding without_all holds
without_all-nil [] = refl
without_all-nil ((key, h) ∷ rest) = ap (◌∷◌ (key, h)) (without_all-nil rest)

without_all-without :
    (id : Text) (ids : List Text) (m : List (Text × SessionHandle))
    → without_all ids (without id m) ≡ without_all (id ∷ ids) m
unfolding without_all without holds
without_all-without id ids [] = refl
without_all-without id ids ((key, h) ∷ rest) = elim (Bool-cases (text_eq id key)) [
  | inl e ↦
      let same : text_eq key id ≡ true = rw (eq_of_text_eq id key e) (text_eq_refl key) in
      rw (e, same) (without_all-without id ids rest)
  | inr e ↦
      let apart : text_eq key id ≡ false = ground (arith, text_eq_iff key id, text_eq_iff id key) in
      elim (Bool-cases (holds key ids)) [
        | inl there ↦ rw (e, apart, there) (without_all-without id ids rest)
        | inr gone ↦ rw (e, apart, gone) (ap (◌∷◌ (key, h)) (without_all-without id ids rest))
      ]
]

close_each-without_all :
    (ids : List Text) (s : State)
    → close_each ids s ≡ record s { sessions = without_all ids s.sessions }
unfolding close_each
close_each-without_all [] s = rw (without_all-nil s.sessions) refl
close_each-without_all (id ∷ ids) s =
    rw
      (
        close-sessions id s,
        close_each-without_all ids (record s { sessions = without id s.sessions }),
        without_all-without id ids s.sessions,
      )
      refl

owned_ids-holds :
    (owner : Text) (id : Text) (m : List (Text × SessionHandle))
    → holds id (keys m) ≡ false
    → holds id (owned_ids owner m) ≡ false
unfolding owned_ids holds
owned_ids-holds owner id [] h = refl
owned_ids-holds owner id ((key, handle) ∷ rest) h = ground (arith, owned_ids-holds owner id rest)

-- Of ids that stand once each, the first is taken if its session is owned, and the rest is as before.
owned_first :
    (owner : Text) (key : Text) (handle : SessionHandle) (rest : List (Text × SessionHandle))
    → holds key (keys rest) ≡ false
    → holds key (owned_ids owner ((key, handle) ∷ rest)) ≡ is_owned owner handle
unfolding owned_ids holds
owned_first owner key handle rest apart =
    let gone : holds key (owned_ids owner rest) ≡ false = owned_ids-holds owner key rest apart in
    elim (Bool-cases (is_owned owner handle)) [
      | inl e ↦ rw (e, text_eq_refl key) refl
      | inr e ↦ rw (e) gone
    ]

owned_rest :
    (owner : Text) (id key : Text) (handle : SessionHandle) (rest : List (Text × SessionHandle))
    → holds key (keys rest) ≡ false
    → holds id (keys rest) ≡ true
    → holds id (owned_ids owner ((key, handle) ∷ rest)) ≡ holds id (owned_ids owner rest)
unfolding owned_ids holds
owned_rest owner id key handle rest apart there =
    let ne : text_eq id key ≡ false = elim (Bool-cases (text_eq id key)) [
      | inl e ↦
          let both : true ≡ false =
            sym there ∙ ap (λ x. holds x (keys rest)) (eq_of_text_eq id key e) ∙ apart in
          cc
      | inr e ↦ e
    ] in
    elim (Bool-cases (is_owned owner handle)) [ inl e ↦ rw (e, ne) refl | inr e ↦ rw e refl ]

without_all-others :
    (owner : Text) (ids : List Text) (m : List (Text × SessionHandle))
    → IsDistinct (keys m)
    → ((id : Text) → holds id (keys m) ≡ true → holds id ids ≡ holds id (owned_ids owner m))
    → without_all ids m ≡ others owner m
unfolding without_all others owned_ids holds
without_all-others owner ids [] d h = refl
without_all-others owner ids ((key, handle) ∷ rest) d h =
    let first : holds key ids ≡ is_owned owner handle =
      h key (rw (text_eq_refl key) refl) ∙ owned_first owner key handle rest d.0 in
    let later : without_all ids rest ≡ others owner rest =
      without_all-others owner ids rest d.1 λ id there.
        h id (rw there (or_true (text_eq id key)))
        ∙ owned_rest owner id key handle rest d.0 there in
    rw (first, later) refl

-- A client that closes all its sessions, whose ids are distinct keys of the map, leaves exactly the
-- sessions of the other clients, and nothing else changes; and closing the same ids in any other order,
-- also more than once each, ends in the same state.
pub close_all_sessions-others :
    (client : Option Text) (ids : List Text) (s : State)
    → IsDistinct (keys s.sessions)
    → ((id : Text)
        → holds id (keys s.sessions) ≡ true
        → holds id ids ≡ holds id (owned_ids (or_empty client) s.sessions))
    → (close_all_sessions client s
        ≡ (record s { sessions = others (or_empty client) s.sessions }, ok tt))
      × (close_each ids s ≡ record s { sessions = others (or_empty client) s.sessions })
unfolding close_all_sessions
close_all_sessions-others client ids s d same =
    let left : (taken : List Text)
        → ((id : Text)
            → holds id (keys s.sessions) ≡ true
            → holds id taken ≡ holds id (owned_ids (or_empty client) s.sessions))
        → close_each taken s ≡ record s { sessions = others (or_empty client) s.sessions } =
      λ taken agrees.
        close_each-without_all taken s
        ∙ ap (λ m. record s { sessions = m })
            (without_all-others (or_empty client) taken s.sessions d agrees) in
    (
      ap (λ after. (after, ok tt))
          (left (owned_ids (or_empty client) s.sessions) (λ id there. refl)),
      left ids same,
    )
