-- ===== src/Array/Vector.antt =====
-- What an array promises: a list of elements, and the number of elements for which it has room.
use zdia.Prelude.{
  ℕ, ◌+◌, ◌*◌, ◌-◌, ◌<◌, ◌≡◌, Option, none, List, [], ◌∷◌, ◌++◌, length, take, drop, get_elem?, ltb,
  ◌==◌, if◌then◌else◌,
}
use zdia.Bytes.{Bytes}
use zdia.Array.{enoent}

-- A call of a client, and its answer: the status, and the element that `array_at` points to.
pub data Call : Type 0 where
  pushes : Bytes → Call
  pops : Call
  inserts : ℕ → Bytes → Call
  erases : ℕ → Call
  reads : ℕ → Call
  clears : Call

pub record Vector : Type 0 where
  pub capacity : ℕ
  pub items : List Bytes

abbrev pub Answer : Type 0
Answer = ℕ × Option Bytes

-- The status of a call with a position.
abbrev pub in_range : Vector → ℕ → ℕ
in_range v i = if ltb i (length v.items) then 0 else enoent

abbrev pub inserted : Vector → ℕ → Bytes → List Bytes
inserted v i x = if ltb i (length v.items) then take i v.items ++ (x ∷ drop i v.items) else v.items

abbrev pub erased : Vector → ℕ → List Bytes
erased v i = if ltb i (length v.items) then take i v.items ++ drop (i + 1) v.items else v.items

-- The room doubles where an element is pushed and there is none.
abbrev pub room_for_push : Vector → ℕ
room_for_push v = if length v.items == v.capacity then 2 * v.capacity else v.capacity

unfoldable pub vec_step : Vector → Call → Answer × Vector
vec_step v (pushes x) =
    ((0, none), record { capacity = room_for_push v; items = v.items ++ (x ∷ []) })
vec_step v pops = (
  (if ltb 0 (length v.items) then 0 else enoent, none),
  record v { items = take (length v.items - 1) v.items },
)
vec_step v (inserts i x) = ((in_range v i, none), record v { items = inserted v i x })
vec_step v (erases i) = ((in_range v i, none), record v { items = erased v i })
vec_step v (reads i) = ((0, get_elem? v.items i), v)
vec_step v clears = ((0, none), record v { items = [] })

-- A history of calls against the vector.
unfoldable pub vec_run : Vector → List Call → List Answer
unfolding vec_step
vec_run v [] = []
vec_run v (c ∷ cs) = let (answer, w) = vec_step v c in answer ∷ vec_run w cs

-- What a call relies on, with elements of `size` bytes: an element is of that size, memory below
-- `limit` suffices where the room doubles, and there is room where an element is inserted or erased.
abbrev pub Allowed : (size limit : ℕ) → Vector → Call → Type 0
Allowed size limit v (pushes x) = (length x ≡ size) × (2 * (size * v.capacity) < limit)
Allowed size limit v pops = Unit
Allowed size limit v (inserts i x) = (length x ≡ size) × (length v.items < v.capacity)
Allowed size limit v (erases i) = length v.items < v.capacity
Allowed size limit v (reads i) = Unit
Allowed size limit v clears = Unit

unfoldable pub AllAllowed : (size limit : ℕ) → Vector → List Call → Type 0
AllAllowed size limit v [] = Unit
AllAllowed size limit v (c ∷ cs) =
    Allowed size limit v c × AllAllowed size limit (vec_step v c).1 cs
