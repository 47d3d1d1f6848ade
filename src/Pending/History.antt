-- ===== src/Pending/History.antt =====
-- Sequences of operations: the invariant of every reachable registry, and how long an entry lasts.
use alayaface.Prelude.{
  ℕ, suc, ◌+◌, ◌≤◌, ◌<◌, ◌≡◌, ap, sym, ◌∙◌, subst, Bool, true, false, not, ◌&&◌, inl, inr, none,
  some, List, [], ◌∷◌, ◌++◌, arith, Text, text_eq, text_eq_iff, text_eq_refl, length, length-append,
  ltb, ltb→lt, order_tests, if◌then◌else◌, Bool-cases,
}
use alayaface.Pending.{
  PendingCommands, put, without, is_some, max_pending_commands, new, insert, retain_ne, remove,
}
use alayaface.Prelude.{holds}
use alayaface.Pending.Evict.{length-retain_ne}
use alayaface.Pending.Steps.{
  IsConsistent, new-IsConsistent, insert_known, insert_fresh, insert_evicts, oldest,
  insert-IsConsistent, remove-IsConsistent,
}

-- What the clients of the registry do to it: a CI frame is sent, a CO frame comes.
pub data Op : Type 0 where
  sent : Text → Text → Op
  answered : Text → Op

unfoldable pub step : PendingCommands → Op → PendingCommands
step s (sent id name) = insert id name s
step s (answered id) = (remove id s).1

unfoldable pub run : PendingCommands → List Op → PendingCommands
unfolding step
run s [] = s
run s (op ∷ ops) = run (step s op) ops

step-IsConsistent : (s : PendingCommands) (op : Op) → IsConsistent s → IsConsistent (step s op)
unfolding step
step-IsConsistent s (sent id name) c = insert-IsConsistent id name s c
step-IsConsistent s (answered id) c = remove-IsConsistent id s c

run-IsConsistent_from :
    (s : PendingCommands) (ops : List Op) → IsConsistent s → IsConsistent (run s ops)
unfolding run
run-IsConsistent_from s [] c = c
run-IsConsistent_from s (op ∷ ops) c =
    run-IsConsistent_from (step s op) ops (step-IsConsistent s op c)

-- Whatever is sent and answered, the queue of a registry lists the keys of its map, each once, and
-- never more than the cap.
pub run-IsConsistent : (ops : List Op) → IsConsistent (run new ops)
run-IsConsistent ops = run-IsConsistent_from new ops new-IsConsistent

-- The id that recording a command gives up: the oldest, if the key is new and the registry full.
is_first : Text → List Text → Bool
is_first j [] = false
is_first j (old ∷ rest) = text_eq old j

pub given_up : Text → PendingCommands → Text → Bool
unfolding is_first
given_up id s j =
    not (is_some (s.map id))
    && not (ltb (length s.order) max_pending_commands)
    && is_first j s.order

-- How many ids were recorded after this one.
behind : Text → List Text → ℕ
behind id [] = 0
behind id (x ∷ xs) = if text_eq id x then length xs else behind id xs

behind-snoc :
    (id j : Text) (xs : List Text)
    → holds id xs ≡ true
    → behind id (xs ++ j ∷ []) ≡ behind id xs + 1
unfolding behind holds
behind-snoc id j [] h = cc
behind-snoc id j (x ∷ xs) h = ground (arith, behind-snoc id j xs, length-append xs (j ∷ []))

behind-retain_ne :
    (id j : Text) (xs : List Text)
    → text_eq j id ≡ false
    → behind id (retain_ne j xs) ≤ behind id xs
unfolding behind retain_ne
behind-retain_ne id j [] ne = omega arith
behind-retain_ne id j (x ∷ xs) ne = ground (
  arith,
  behind-retain_ne id j xs,
  length-retain_ne j xs,
  text_eq_iff j x,
  text_eq_iff id x,
  text_eq_iff j id,
)

-- The entry is there, with at most `k` newer ones.
record IsRecent (id name : Text) (k : ℕ) (s : PendingCommands) : Type 0 where
  there : s.map id ≡ some name
  recent : behind id s.order ≤ k

evicts-IsRecent :
    (id name j other : Text) (k : ℕ) (s : PendingCommands)
    → text_eq j id ≡ false
    → k + 1 < max_pending_commands
    → IsRecent id name k s
    → holds id s.order ≡ true
    → (old : Text) (rest : List Text) → s.order ≡ old ∷ rest
    → length s.order ≡ max_pending_commands
    → IsRecent id name
        (k + 1)
        (record { map = without old (put j other s.map); order = rest ++ j ∷ [] })
unfolding behind holds
evicts-IsRecent id name j other k s ne few r here old rest e h =
    let newer : behind id (old ∷ rest) ≤ k = subst (λ l. behind id l ≤ k) e r.recent in
    let in_queue : holds id (old ∷ rest) ≡ true = ap (holds id) (sym e) ∙ here in
    let full : length rest + 1 ≡ max_pending_commands = omega (arith, ap length e, h) in
    let ne_old : text_eq id old ≡ false = ground arith in
    record {
      there = ground (arith, r.there, text_eq_iff old id, text_eq_iff id old);
      recent = ground (arith, behind-snoc id j rest);
    }

sent-IsRecent :
    (id name j other : Text) (k : ℕ) (s : PendingCommands)
    → IsConsistent s
    → text_eq j id ≡ false
    → k + 1 < max_pending_commands
    → IsRecent id name k s
    → IsRecent id name (k + 1) (insert j other s)
sent-IsRecent id name j other k s c ne few r = elim (Bool-cases (is_some (s.map j))) [
  | inl known ↦
      rw (insert_known j other s known c.bounded)
        (record { there = ground arith; recent = omega (arith, r.recent) })
  | inr fresh ↦ elim (Bool-cases (ltb (length s.order) max_pending_commands)) [
    | inl room ↦ rw (insert_fresh j other s fresh (ltb→lt _ _ room)) (record {
      there = ground arith;
      recent = omega (arith, behind-snoc id j s.order here, r.recent);
    })
    | inr full ↦
        let h : length s.order ≡ max_pending_commands = omega (order_tests, full, c.bounded) in
        let (old, rest, e) = oldest s.order h in
        rw (insert_evicts j other s old rest fresh e h)
          (evicts-IsRecent id name j other k s ne few r here old rest e h)
  ]
]
  where
    here : holds id s.order ≡ true
    here = c.tracked id ∙ ap is_some r.there

answered-IsRecent :
    (id name j : Text) (k : ℕ) (s : PendingCommands)
    → text_eq j id ≡ false
    → IsRecent id name k s
    → IsRecent id name k (remove j s).1
unfolding remove
answered-IsRecent id name j k s ne r = record {
  there = ground (arith, r.there);
  recent = ground (arith, behind-retain_ne id j s.order, r.recent);
}

-- The operations that another command makes, and how many of them record one.
abbrev pub Spares : Text → List Op → Type 0
Spares id [] = Unit
Spares id (sent j name ∷ ops) = (text_eq j id ≡ false) × Spares id ops
Spares id (answered j ∷ ops) = (text_eq j id ≡ false) × Spares id ops

abbrev pub sends : List Op → ℕ
sends [] = 0
sends (sent j name ∷ ops) = suc (sends ops)
sends (answered j ∷ ops) = sends ops

run-IsRecent :
    (id name : Text) (k : ℕ) (s : PendingCommands) (ops : List Op)
    → IsConsistent s
    → Spares id ops
    → k + sends ops < max_pending_commands
    → IsRecent id name k s
    → (run s ops).map id ≡ some name
unfolding run
run-IsRecent id name k s [] c sp few r = r.there
run-IsRecent id name k s (sent j other ∷ ops) c sp few r =
    run-IsRecent id name (k + 1) (insert j other s) ops (insert-IsConsistent j other s c) sp.1
      (omega arith) (sent-IsRecent id name j other k s c sp.0 (omega arith) r)
run-IsRecent id name k s (answered j ∷ ops) c sp few r =
    run-IsRecent id name k (remove j s).1 ops (remove-IsConsistent j s c) sp.1 few
      (answered-IsRecent id name j k s sp.0 r)

map_evicted :
    (id name : Text) (s : PendingCommands) (j : Text)
    → IsConsistent s
    → (old : Text) (rest : List Text) → is_some (s.map id) ≡ false
    → ltb (length s.order) max_pending_commands ≡ false
    → s.order ≡ old ∷ rest
    → without old (put id name s.map) j
      ≡ (if text_eq id j then some name else if given_up id s j then none else s.map j)
unfolding given_up holds
map_evicted id name s j c old rest fresh full e =
    let absent : holds id (old ∷ rest) ≡ false = ap (holds id) (sym e) ∙ c.tracked id ∙ fresh in
    let first : is_first j s.order ≡ text_eq old j = ap (is_first j) e in
    ground
      (arith, first, absent, fresh, full, text_eq_iff old j, text_eq_iff id j, text_eq_iff id old)

-- What recording a command does to every key: the new one has its name, the oldest is given up if
-- the registry was full and the key new, and every other key has the name that it had.
pub map-insert :
    (id name : Text) (s : PendingCommands) (j : Text)
    → IsConsistent s
    → (insert id name s).map j
      ≡ (if text_eq id j then some name else if given_up id s j then none else s.map j)
unfolding given_up
map-insert id name s j c = elim (Bool-cases (is_some (s.map id))) [
  | inl known ↦ rw (insert_known id name s known c.bounded) (ground arith)
  | inr fresh ↦ elim (Bool-cases (ltb (length s.order) max_pending_commands)) [
    | inl room ↦ rw (insert_fresh id name s fresh (ltb→lt _ _ room)) (ground arith)
    | inr full ↦
        let h : length s.order ≡ max_pending_commands = omega (order_tests, full, c.bounded) in
        let (old, rest, e) = oldest s.order h in
        rw (insert_evicts id name s old rest fresh e h)
          (map_evicted id name s j c old rest fresh full e)
  ]
]

behind_last : (id : Text) (xs : List Text) → holds id xs ≡ false → behind id (xs ++ id ∷ []) ≡ 0
unfolding behind holds
behind_last id [] h = ground (arith, text_eq_refl id)
behind_last id (x ∷ xs) h = ground (arith, behind_last id xs)

insert-IsRecent :
    (id name : Text) (s : PendingCommands)
    → IsConsistent s
    → s.map id ≡ none
    → IsRecent id name 0 (insert id name s)
unfolding behind holds
insert-IsRecent id name s c new_id = elim (Bool-cases (ltb (length s.order) max_pending_commands)) [
  | inl room ↦ rw (insert_fresh id name s fresh (ltb→lt _ _ room)) (record {
    there = ground (arith, text_eq_refl id);
    recent = omega (arith, last s.order (c.tracked id ∙ fresh));
  })
  | inr full ↦
      let h : length s.order ≡ max_pending_commands = omega (order_tests, full, c.bounded) in
      let (old, rest, e) = oldest s.order h in
      rw (insert_evicts id name s old rest fresh e h) (evicted old rest e)
]
  where
    fresh : is_some (s.map id) ≡ false
    fresh = ap is_some new_id

    last : (xs : List Text) → holds id xs ≡ false → behind id (xs ++ id ∷ []) ≡ 0
    last = behind_last id

    evicted :
        (old : Text) (rest : List Text)
        → s.order ≡ old ∷ rest
        → IsRecent id name 0
            (record { map = without old (put id name s.map); order = rest ++ id ∷ [] })
    evicted old rest e =
        let absent : holds id (old ∷ rest) ≡ false = ap (holds id) (sym e) ∙ c.tracked id ∙ fresh in
        record {
          there = ground (arith, absent, text_eq_refl id, text_eq_iff old id, text_eq_iff id old);
          recent = ground (arith, absent, behind_last id rest);
        }

-- A call that is recorded under a new id gets its name back with its answer, whatever other calls
-- are recorded and answered in between, if fewer than the cap of them were recorded.
pub remove-run-insert :
    (id name : Text) (s : PendingCommands) (ops : List Op)
    → IsConsistent s
    → s.map id ≡ none
    → Spares id ops
    → sends ops < max_pending_commands
    → (remove id (run (insert id name s) ops)).0 ≡ some name
unfolding remove
remove-run-insert id name s ops c new_id sp few =
    run-IsRecent id name 0 (insert id name s) ops (insert-IsConsistent id name s c) sp
      (omega (arith, few)) (insert-IsRecent id name s c new_id)
