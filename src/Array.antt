-- ===== src/Array.antt =====
-- array.c: a growing array of elements of `elem_size` bytes. A pointer is the address of a block
-- with an offset; a use of a pointer into another block than the array's own is a fault, and so
-- is an access outside the block. An operation that changes `*arr` returns the new array beside
-- its status.
pub mod Inv
pub mod Push
pub mod Insert
pub mod Erase
pub mod Find
pub mod Vector
pub mod Refine
pub mod Sort
use zdia.Prelude.{
  ℕ, zero, suc, Option, none, some, List, Run, ok, fault, out_of_fuel, ◌>>=◌, ltb, leb, ◌==◌,
  if◌then◌else◌, ◌&&◌, add64, sub64, mul64, ℤ, is_zero,
}
use zdia.Bytes.{Bytes, read, memcpy, memmove, chunks}
use zdia.Memory.{Block, Memory, zd_malloc, zd_realloc}
use zdia.Heap.{Live, zd_free}

pub record Array : Type 0 where
  pub elem_size : ℕ
  pub capacity : ℕ
  pub size : ℕ
  pub cmp : Option (Bytes → Bytes → ℤ)
  pub data_block : Block

pub record Ptr : Type 0 where
  pub addr : ℕ
  pub off : ℕ

abbrev pub array_initial_size : ℕ
array_initial_size = 4

abbrev pub enoent : ℕ
enoent = 2

abbrev pub enomem : ℕ
enomem = 12

-- `(char *)arr->data + off`
abbrev pub into : Array → ℕ → Ptr
into a off = record { addr = a.data_block.addr; off = off }

-- The array with other bytes in its block.
abbrev pub with_bytes : Array → Bytes → Array
with_bytes a bs = record a { data_block = record { addr = a.data_block.addr; bytes = bs } }

-- The elements that the array holds.
abbrev pub elems : Array → List Bytes
elems a = chunks a.elem_size a.size a.data_block.bytes

abbrev pub fresh : ℕ → Block → Array
fresh elem_size b = record {
  elem_size = elem_size;
  capacity = array_initial_size;
  size = 0;
  cmp = none;
  data_block = b;
}

-- `sizeof(array_t)`: five fields of eight bytes.
abbrev pub sizeof_array : ℕ
sizeof_array = 40

-- The first block is the `array_t` itself, which the record stands for.
unfoldable pub new : Memory → ℕ → Run Array
new m elem_size = do
  arr ← zd_malloc m sizeof_array
  b ← zd_malloc m (mul64 elem_size array_initial_size)
  ok (fresh elem_size b)

-- Beside the array, which of the blocks from before are still allocated. `zd_free` of the old data
-- faults on what is neither null nor an allocated block; then comes a new block.
unfoldable pub init : Memory → Array → ℕ → Live → Run (Array × Live)
unfolding zd_free
init m a elem_size live = do
  live' ← zd_free a.data_block.addr live
  b ← zd_malloc m (mul64 elem_size array_initial_size)
  ok (fresh elem_size b, live')

pub set_cmp : Array → Option (Bytes → Bytes → ℤ) → Array
set_cmp a cmp = record a { cmp = cmp }

pub grow : Memory → Array → Run (ℕ × Array)
grow m a = do
  b ← zd_realloc m a.data_block (mul64 (mul64 2 a.elem_size) a.capacity)
  ok (0, record a { data_block = b; capacity = mul64 a.capacity 2 })

-- `(arr->size == arr->capacity) && __array_grow(arr)`: the value of the test, as a status.
pub make_room : Memory → Array → Run (ℕ × Array)
unfolding grow
make_room m a = if a.size == a.capacity then grow m a else ok (0, a)

pub at : Array → ℕ → Option Ptr
at a pos = if leb a.size pos then none else some (into a (mul64 a.elem_size pos))

pub front : Array → Ptr
front a = into a 0

pub back : Array → Ptr
back a = into a (mul64 a.elem_size (sub64 a.size 1))

pub begin : Array → Ptr
begin a = into a 0

pub end : Array → Ptr
end a = into a (mul64 a.elem_size a.size)

pub next : Array → Ptr → Ptr
next a it = record it { off = add64 it.off a.elem_size }

-- The element that a pointer into the array points to.
pub deref : Array → Ptr → Run Bytes
deref a p = if p.addr == a.data_block.addr then read a.data_block.bytes p.off a.elem_size else fault

-- A call of `arr->cmp`.
pub call_cmp : Array → Bytes → Bytes → Run ℤ
call_cmp a x y = elim a.cmp [ none ↦ fault | some f ↦ ok (f x y) ]

pub find_loop : ℕ → Array → Bytes → Ptr → Run Ptr
unfolding begin end next deref call_cmp
find_loop zero a elem it = out_of_fuel
find_loop (suc fuel) a elem it =
    let rest = find_loop fuel a elem (next a it) in
    if it.addr == (end a).addr && it.off == (end a).off
    then ok it
    else do x ← deref a it; c ← call_cmp a elem x; if is_zero c then ok it else rest

-- The fuel is a round for each element, and one for the test that ends the loop.
pub find : Array → Bytes → Run Ptr
unfolding find_loop
find a elem = find_loop (suc a.size) a elem (begin a)

-- The rest of `array_push_back` once there is room. `elem` is the memory from the pointer on;
-- `memcpy` reads `elem_size` bytes of it.
pub store_back : Array → Bytes → Run (ℕ × Array)
store_back a elem = do
  src ← read elem 0 a.elem_size
  bs ← memcpy a.data_block.bytes (mul64 a.size a.elem_size) src
  ok (0, record (with_bytes a bs) { size = add64 a.size 1 })

unfoldable pub push_back : Memory → Array → Bytes → Run (ℕ × Array)
unfolding make_room store_back
push_back m a elem = do
  (failed, b) ← make_room m a
  if failed == 0 then store_back b elem else ok (enomem, b)

pub pop_back : Array → ℕ × Array
pop_back a = if ltb 0 a.size then (0, record a { size = sub64 a.size 1 }) else (enoent, a)

-- The rest of `array_insert` once there is room.
pub store_at : Array → Ptr → Bytes → Run (ℕ × Array)
unfolding end
store_at a pos elem =
    if pos.addr == a.data_block.addr
    then (do
      moved ←
          memmove a.data_block.bytes (add64 pos.off a.elem_size) pos.off (sub64 (end a).off pos.off)
      src ← read elem 0 a.elem_size
      bs ← memcpy moved pos.off src
      ok (0, record (with_bytes a bs) { size = add64 a.size 1 }))
    else fault

pub insert : Memory → Array → Ptr → Bytes → Run (ℕ × Array)
unfolding make_room store_at
insert m a pos elem = do
  (failed, b) ← make_room m a
  if failed == 0 then store_at b pos elem else ok (enomem, b)

pub insert_at : Memory → Array → ℕ → Bytes → Run (ℕ × Array)
unfolding insert
insert_at m a pos elem =
    if leb a.size pos then ok (enoent, a) else insert m a (into a (mul64 a.elem_size pos)) elem

pub erase : Array → Ptr → Run (ℕ × Array)
unfolding end
erase a pos =
    if pos.addr == a.data_block.addr
    then (do
      bs ←
          memmove a.data_block.bytes pos.off (add64 pos.off a.elem_size)
            (sub64 (sub64 (end a).off pos.off) 1)
      ok (0, record (with_bytes a bs) { size = sub64 a.size 1 }))
    else fault

pub erase_at : Array → ℕ → Run (ℕ × Array)
unfolding erase
erase_at a pos = if leb a.size pos then ok (enoent, a) else erase a (into a (mul64 a.elem_size pos))

pub clear : Array → ℕ × Array
clear a = (0, record a { size = 0 })

-- As the source has it: a new array of the same element size, with no element copied.
pub clone : Memory → Array → Run Array
unfolding new
clone m a = new m a.elem_size
