-- ===== src/Queue.antt =====
-- queue.c: a ring of elements of `elem_size` bytes that two threads share, one slot of which stays
-- free. Each of `queue_push` and `queue_pop` holds the mutex from its first line to its last, so
-- it is one step here. The `queue_t` itself is a value, its storage a block.
pub mod Fifo
pub mod Inv
pub mod Refine
pub mod Size
use zdia.Prelude.{
  ℕ, ◌+◌, ◌%◌, Bool, Option, none, some, Run, ok, fault, ◌>>=◌, ◌==◌, if◌then◌else◌, add64, sub64,
  mul64,
}
use zdia.Bytes.{Bytes, read, memcpy}
use zdia.Memory.{Block, Memory, zd_malloc}

pub record Queue : Type 0 where
  pub elem_size : ℕ
  pub capacity : ℕ
  pub head : ℕ
  pub tail : ℕ
  pub data_block : Block

abbrev pub einval : ℕ
einval = 22

abbrev pub enoent : ℕ
enoent = 2

-- `sizeof(queue_t)`: a mutex of 40 bytes and five fields of eight.
abbrev pub sizeof_queue : ℕ
sizeof_queue = 80

-- The first block is the `queue_t` itself, which the record stands for. `zd_malloc` does not return
-- null, so the null test of `queue_new` never fires.
pub new : Memory → ℕ → ℕ → Run Queue
new m elem_size capacity = do
  own ← zd_malloc m sizeof_queue
  b ← zd_malloc m (mul64 elem_size capacity)
  ok (record { elem_size = elem_size; capacity = capacity; head = 0; tail = 0; data_block = b })

-- C's `a % b` on `size_t`: division by zero is a fault.
abbrev pub mod_or_fault : ℕ → ℕ → Run ℕ
mod_or_fault a b = if b == 0 then fault else ok (a % b)

pub size : Queue → Run ℕ
size q = mod_or_fault (sub64 q.tail q.head) q.capacity

pub capacity_of : Queue → ℕ
capacity_of q = q.capacity

pub empty : Queue → Bool
empty q = q.head == q.tail

pub full : Queue → Run Bool
full q = do next ← mod_or_fault (add64 q.tail 1) q.capacity; ok (next == q.head)

-- `i++; if (i == capacity) i = 0;`
abbrev pub advance : ℕ → ℕ → ℕ
advance capacity i = let j = add64 i 1 in if j == capacity then 0 else j

-- `elem` is the memory from the pointer on.
pub push : Queue → Bytes → Run (ℕ × Queue)
unfolding full
push q elem = do
  no_room ← full q
  if no_room then ok (einval, q) else (do
    src ← read elem 0 q.elem_size
    bs ← memcpy q.data_block.bytes (mul64 q.elem_size q.tail) src
    ok (
      0,
      record q {
        data_block = record { addr = q.data_block.addr; bytes = bs };
        tail = advance q.capacity q.tail;
      },
    ))

-- The option is what is written through `elem`.
pub pop : Queue → Run (ℕ × Option Bytes × Queue)
unfolding empty
pop q = if empty q then ok (enoent, none, q) else do
  x ← read q.data_block.bytes (mul64 q.elem_size q.head) q.elem_size
  ok (0, some x, record q { head = advance q.capacity q.head })
