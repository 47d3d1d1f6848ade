-- ===== src/Pending/Steps.antt =====
-- What one operation of the registry does, and the invariant that it keeps.
use alayaface.Prelude.{
  ◌≤◌, ◌<◌, ◌≡◌, refl, ap, sym, ◌∙◌, subst, true, false, not, ◌&&◌, ◌||◌, inl, inr, List, [], ◌∷◌,
  ◌++◌, arith, Text, text_eq, text_eq_iff, text_eq_refl, length, length-append, ltb, ltb→lt,
  order_tests, Bool-cases,
}
use alayaface.Pending.{
  PendingCommands, NameMap, put, without, is_some, max_pending_commands, new, insert, remove,
}
use alayaface.Prelude.{holds, IsDistinct, holds-append, IsDistinct-snoc}
use alayaface.Pending.Evict.{
  evict_fits, evict_full, holds-retain_ne, IsDistinct-retain_ne, length-retain_ne,
}

-- The queue lists the keys of the map, each once, and is within the cap.
pub record IsConsistent (s : PendingCommands) : Type 0 where
  pub distinct : IsDistinct s.order
  pub tracked : (id : Text) → holds id s.order ≡ is_some (s.map id)
  pub bounded : length s.order ≤ max_pending_commands

pub new-IsConsistent : IsConsistent new
unfolding new holds
new-IsConsistent = record { distinct = tt; tracked = λ id. refl; bounded = omega arith }

module _ (id name : Text) (s : PendingCommands) where
  pub insert_known :
      is_some (s.map id) ≡ true
      → length s.order ≤ max_pending_commands
      → insert id name s ≡ record { map = put id name s.map; order = s.order }
  unfolding insert
  insert_known known h = rw (insert, known, evict_fits (put id name s.map) s.order h)

  pub insert_fresh :
      is_some (s.map id) ≡ false
      → length s.order < max_pending_commands
      → insert id name s ≡ record { map = put id name s.map; order = s.order ++ id ∷ [] }
  unfolding insert
  insert_fresh fresh h =
      rw (insert, fresh)
        (evict_fits (put id name s.map) (s.order ++ id ∷ [])
          (omega (arith, length-append s.order (id ∷ []), h)))

  pub insert_evicts :
      (old : Text) (rest : List Text)
      → is_some (s.map id) ≡ false
      → s.order ≡ old ∷ rest
      → length s.order ≡ max_pending_commands
      → insert id name s ≡ record { map = without old (put id name s.map); order = rest ++ id ∷ [] }
  unfolding insert
  insert_evicts old rest fresh e h =
      rw (insert, fresh, e)
        (evict_full (put id name s.map) old (rest ++ id ∷ [])
          (omega (arith, length-append rest (id ∷ []), ap length e, h)))

is_some-put :
    (id name j : Text) (map : NameMap)
    → is_some (put id name map j) ≡ (text_eq id j || is_some (map j))
is_some-put id name j map = ground arith

is_some-without :
    (id j : Text) (map : NameMap)
    → is_some (without id map j) ≡ (not (text_eq id j) && is_some (map j))
is_some-without id j map = ground arith

module _ (id name : Text) (s : PendingCommands) (c : IsConsistent s) where
  known-IsConsistent :
      is_some (s.map id) ≡ true → IsConsistent (record { map = put id name s.map; order = s.order })
  known-IsConsistent known = record {
    distinct = c.distinct;
    tracked = λ j. ground (arith, c.tracked j, text_eq_iff id j, is_some-put id name j s.map);
    bounded = c.bounded;
  }

  fresh-IsConsistent :
      is_some (s.map id) ≡ false
      → length s.order < max_pending_commands
      → IsConsistent (record { map = put id name s.map; order = s.order ++ id ∷ [] })
  unfolding holds
  fresh-IsConsistent fresh room = record {
    distinct = IsDistinct-snoc id s.order (c.tracked id ∙ fresh) c.distinct;
    tracked = λ j.
        ground (
          arith,
          c.tracked j,
          text_eq_iff id j,
          text_eq_iff j id,
          holds-append j s.order (id ∷ []),
        );
    bounded = omega (arith, length-append s.order (id ∷ []), room);
  }

  evicts-IsConsistent :
      (old : Text) (rest : List Text)
      → is_some (s.map id) ≡ false
      → s.order ≡ old ∷ rest
      → length s.order ≡ max_pending_commands
      → IsConsistent (record { map = without old (put id name s.map); order = rest ++ id ∷ [] })
  unfolding holds
  evicts-IsConsistent old rest fresh e h =
      let d : IsDistinct (old ∷ rest) = subst IsDistinct e c.distinct in
      let t : (j : Text) → holds j (old ∷ rest) ≡ is_some (s.map j) =
        λ j. ap (holds j) (sym e) ∙ c.tracked j in
      record {
        distinct = IsDistinct-snoc id rest (ground (arith, t id, fresh)) d.1;
        tracked = λ j. ground (
          arith,
          t j,
          t id,
          t old,
          d.0,
          text_eq_iff old j,
          text_eq_iff id j,
          text_eq_iff j old,
          text_eq_iff j id,
          text_eq_refl old,
          holds-append j rest (id ∷ []),
        );
        bounded = omega (arith, length-append rest (id ∷ []), ap length e, h);
      }

-- At the cap there is an oldest id.
pub oldest :
    (order : List Text)
    → length order ≡ max_pending_commands
    → (old : Text) × (rest : List Text) × (order ≡ old ∷ rest)
oldest [] h = absurd (omega arith)
oldest (old ∷ rest) h = (old, rest, refl)

-- A command that is recorded leaves the registry consistent.
pub insert-IsConsistent :
    (id name : Text) (s : PendingCommands) → IsConsistent s → IsConsistent (insert id name s)
insert-IsConsistent id name s c = elim (Bool-cases (is_some (s.map id))) [
  | inl known ↦ rw (insert_known id name s known c.bounded) (known-IsConsistent id name s c known)
  | inr fresh ↦ elim (Bool-cases (ltb (length s.order) max_pending_commands)) [
    | inl room ↦
        let h = ltb→lt _ _ room in
        rw (insert_fresh id name s fresh h) (fresh-IsConsistent id name s c fresh h)
    | inr full ↦
        let h : length s.order ≡ max_pending_commands = omega (order_tests, full, c.bounded) in
        let (old, rest, e) = oldest s.order h in
        rw (insert_evicts id name s old rest fresh e h)
          (evicts-IsConsistent id name s c old rest fresh e h)
  ]
]

-- A command that is answered or given up leaves the registry consistent.
pub remove-IsConsistent :
    (id : Text) (s : PendingCommands) → IsConsistent s → IsConsistent (remove id s).1
unfolding remove
remove-IsConsistent id s c = elim (Bool-cases (is_some (s.map id))) [
  | inl known ↦ rw known (record {
    distinct = IsDistinct-retain_ne id s.order c.distinct;
    tracked = λ j. holds-retain_ne id j s.order ∙ ground (arith, c.tracked j);
    bounded = omega (arith, length-retain_ne id s.order, c.bounded);
  })
  | inr unknown ↦ rw unknown (record {
    distinct = c.distinct;
    tracked = λ j. ground (arith, c.tracked j, c.tracked id, text_eq_iff id j);
    bounded = c.bounded;
  })
]
