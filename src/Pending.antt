-- ===== src/Pending.antt =====
-- `PendingCommands` of src-tauri/src/session.rs: the registry of the commands that wait for their
-- CO frame. The mutex makes each operation one step; the hash map is a function of its keys.
pub mod Evict
pub mod Steps
pub mod History
use alayaface.Prelude.{
  ℕ, ◌+◌, Bool, true, false, not, Option, none, some, List, [], ◌∷◌, ◌++◌, Text, text_eq, length,
  ltb, if◌then◌else◌,
}

abbrev pub NameMap : Type 0
NameMap = Text → Option Text

pub record PendingCommands : Type 0 where
  pub map : NameMap
  pub order : List Text

abbrev pub max_pending_commands : ℕ
max_pending_commands = 512

-- `HashMap::insert` and `HashMap::remove`, without the value that they return
abbrev pub put : Text → Text → NameMap → NameMap
put id name map j = if text_eq id j then some name else map j

abbrev pub without : Text → NameMap → NameMap
without id map j = if text_eq id j then none else map j

abbrev pub is_some {ℓ} : {A : Type ℓ} → Option A → Bool
is_some none = false
is_some (some a) = true

unfoldable pub new : PendingCommands
new = record { map = λ id. none; order = [] }

-- the `while` loop of `insert`
unfoldable pub evict : NameMap → List Text → PendingCommands
evict map [] = record { map = map; order = [] }
evict map (old ∷ order) =
    let rest = evict (without old map) order in
    if ltb max_pending_commands (length (old ∷ order))
    then rest
    else record { map = map; order = old ∷ order }

unfoldable pub insert : Text → Text → PendingCommands → PendingCommands
insert id name s =
    let is_new = not (is_some (s.map id)) in
    evict (put id name s.map) (if is_new then s.order ++ id ∷ [] else s.order)

-- `order.retain(|x| x != id)`
unfoldable pub retain_ne : Text → List Text → List Text
retain_ne id [] = []
retain_ne id (x ∷ xs) = let rest = retain_ne id xs in if text_eq id x then rest else x ∷ rest

-- `remove`, and `blocking_remove`, which has the same body
unfoldable pub remove : Text → PendingCommands → Option Text × PendingCommands
remove id s =
    let v = s.map id in
    (
      v,
      record {
        map = without id s.map;
        order = if is_some v then retain_ne id s.order else s.order;
      },
    )
