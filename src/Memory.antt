-- ===== src/Memory.antt =====
-- common.c: `zd_malloc` and `zd_realloc` over the function pointers `alloc_func` and
-- `realloc_func`, which stand for the C library's `malloc` and `realloc` or for what the user sets.
-- A block is an address with the bytes stored there; the null pointer is the block at address 0.
use zdia.Prelude.{
  ℕ, ◌^◌, ◌≤◌, ◌<◌, ◌≡◌, Option, none, some, List, [], length, take, Run, ok, exited, ◌==◌,
  if◌then◌else◌,
}
use zdia.Bytes.{Bytes}

pub record Block : Type 0 where
  pub addr : ℕ
  pub bytes : Bytes

abbrev pub null : Block
null = record { addr = 0; bytes = [] }

-- The static function pointers of common.c; `none` is a null result. `free_func` is a log of
-- the addresses it was called with.
pub record Memory : Type 0 where
  pub alloc_func : ℕ → Option Block
  pub realloc_func : Block → ℕ → Option Block
  pub free_func : ℕ → List ℕ → List ℕ

unfoldable pub zd_set_alloc : (ℕ → Option Block) → Memory → Memory
zd_set_alloc f m = record m { alloc_func = f }

unfoldable pub zd_set_free : (ℕ → List ℕ → List ℕ) → Memory → Memory
zd_set_free f m = record m { free_func = f }

-- A null result ends the process: `die` calls `exit(1)`.
abbrev pub or_die : Option Block → Run Block
or_die none = exited
or_die (some b) = ok b

unfoldable pub zd_malloc : Memory → ℕ → Run Block
zd_malloc m n = or_die (m.alloc_func n)

unfoldable pub zd_realloc : Memory → Block → ℕ → Run Block
zd_realloc m b n = or_die (m.realloc_func b n)

unfoldable pub zd_free : Memory → ℕ → List ℕ → List ℕ
zd_free m ptr freed = if ptr == 0 then freed else m.free_func ptr freed

-- What the C library documents: a block has the size that was asked for, which is at most
-- PTRDIFF_MAX, and `realloc` keeps the bytes that both blocks have room for.
pub record IsLawful (m : Memory) : Type 0 where
  pub alloc_length :
      (n : ℕ) (b : Block) → m.alloc_func n ≡ some b → (length b.bytes ≡ n) × (n < 2 ^ 63)
  pub realloc_length :
      (b : Block) (n : ℕ) (c : Block)
      → m.realloc_func b n ≡ some c
      → (length c.bytes ≡ n) × (n < 2 ^ 63)
  pub realloc_keep :
      (b : Block) (n : ℕ) (c : Block)
      → m.realloc_func b n ≡ some c
      → length b.bytes ≤ n
      → take (length b.bytes) c.bytes ≡ b.bytes

-- Memory suffices for blocks below `limit` bytes.
pub record Grants (m : Memory) (limit : ℕ) : Type 0 where
  pub alloc : (n : ℕ) → n < limit → (b : Block) × (m.alloc_func n ≡ some b)
  pub realloc : (b : Block) (n : ℕ) → n < limit → (c : Block) × (m.realloc_func b n ≡ some c)
