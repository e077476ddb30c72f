-- ===== src/Queue/Inv.antt =====
-- The representation invariant of `queue_t`, and the elements that it holds.
use zdia.Prelude.{
  ℕ, zero, suc, ◌+◌, ◌*◌, ◌-◌, ◌^◌, ◌<◌, ◌≡◌, refl, ap, List, [], ◌∷◌, length, get_or, arith, leb,
  if◌then◌else◌, ◌==◌,
}
use zdia.Bytes.{Bytes, chunks}
use zdia.Queue.{Queue}
use zdia.Array.Inv.{le_of_mul}

pub record IsValid (q : Queue) : Type 0 where
  pub sized : 0 < q.elem_size
  pub head_in : q.head < q.capacity
  pub tail_in : q.tail < q.capacity
  pub storage : length q.data_block.bytes ≡ q.elem_size * q.capacity
  pub object : q.elem_size * q.capacity < 2 ^ 63

-- The slots of the ring.
abbrev pub slots : Queue → List Bytes
slots q = chunks q.elem_size q.capacity q.data_block.bytes

-- The slot after `i`, round the end.
abbrev pub after : ℕ → ℕ → ℕ
after cap i = if i + 1 == cap then 0 else i + 1

-- The slot `n` places after `h`, round the end.
abbrev pub place : ℕ → ℕ → ℕ → ℕ
place cap h n = if leb cap (h + n) then h + n - cap else h + n

-- `n` elements from slot `h` on, round the end.
abbrev pub window : ℕ → List Bytes → ℕ → ℕ → List Bytes
window cap xs h zero = []
window cap xs h (suc n) = get_or xs h [] ∷ window cap xs (after cap h) n

-- The number of slots from `head` up to `tail`, round the end.
abbrev pub count : Queue → ℕ
count q = if leb q.head q.tail then q.tail - q.head else q.tail + q.capacity - q.head

-- The elements in the queue, oldest first.
abbrev pub contents : Queue → List Bytes
contents q = window q.capacity (slots q) q.head (count q)

pub length-window : (cap : ℕ) (xs : List Bytes) (h n : ℕ) → length (window cap xs h n) ≡ n
length-window cap xs h zero = refl
length-window cap xs h (suc n) = ap suc (length-window cap xs (after cap h) n)

pub count_lt : (q : Queue) → IsValid q → count q < q.capacity
count_lt q v = ground arith

-- `tail` is `count` places after `head`.
pub place-count : (q : Queue) → IsValid q → place q.capacity q.head (count q) ≡ q.tail
place-count q v = ground arith

-- A place that is not the first lies after another.
pub place-after :
    (cap h n : ℕ) → h < cap → suc n < cap → place cap (after cap h) n ≡ place cap h (suc n)
place-after cap h n hh hn = ground arith

pub place-ne : (cap h n : ℕ) → h < cap → suc n < cap → (place cap h (suc n) ≡ h → ⊥)
place-ne cap h n hh hn e = ground arith

pub after_lt : (cap h : ℕ) → h < cap → after cap h < cap
after_lt cap h hh = ground arith

pub capacity_lt : (q : Queue) → IsValid q → q.capacity < 2 ^ 63
capacity_lt q v =
    let o = v.object in let z = v.sized in omega (arith, le_of_mul q.elem_size q.capacity z)
