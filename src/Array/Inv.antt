-- ===== src/Array/Inv.antt =====
-- The representation invariant of `array_t`, and how `__array_grow` keeps it.
use zdia.Prelude.{
  ℕ, ◌+◌, ◌*◌, ◌^◌, ◌≤◌, ◌<◌, ◌≡◌, refl, ap, ◌∙◌, sym, ◌⊎◌, inl, inr, none, some, ok, exited, arith,
  length, take, mul64, ◌==◌, Bool-cases, eq→==, ==_iff,
}
use zdia.Bytes.{Bytes, chunks}
use zdia.Bytes.Chunks.{chunks-take}
use zdia.Memory.{Block, Memory, IsLawful, Grants, zd_realloc}
use zdia.Array.{Array, elems, grow, make_room}

pub record IsValid (a : Array) : Type 0 where
  pub sized : 0 < a.elem_size
  pub some_room : 0 < a.capacity
  pub size_le : a.size ≤ a.capacity
  pub storage : length a.data_block.bytes ≡ a.elem_size * a.capacity
  pub object : a.elem_size * a.capacity < 2 ^ 63

-- The slots of an array lie in its block, one behind the other.
pub slot_in : (size i n : ℕ) → i < n → size * i + size ≤ size * n
slot_in size i n h = grind arith

pub le_of_mul : (size n : ℕ) → 0 < size → n ≤ size * n
le_of_mul size n h = grind arith

pub mul_mono : (size m n : ℕ) → m ≤ n → size * m ≤ size * n
mul_mono size m n h = grind arith

-- Memory suffices to double the array.
abbrev pub CanGrow : Memory → Array → Type 0
CanGrow m a = (limit : ℕ) × Grants m limit × (2 * (a.elem_size * a.capacity) < limit)

-- `b` is `a` with room for one more element.
pub record Roomy (a b : Array) : Type 0 where
  pub valid : IsValid b
  pub same_size : b.size ≡ a.size
  pub same_elem_size : b.elem_size ≡ a.elem_size
  pub same_cmp : b.cmp ≡ a.cmp
  pub same_elems : elems b ≡ elems a
  pub room : b.size < b.capacity
  pub capacity : (b.capacity ≡ a.capacity) ⊎ ((a.size ≡ a.capacity) × (b.capacity ≡ 2 * a.capacity))

-- No product of `__array_grow` wraps.
pub grow_no_wrap :
    (a : Array)
    → IsValid a
    → (mul64 (mul64 2 a.elem_size) a.capacity ≡ 2 * (a.elem_size * a.capacity))
      × (mul64 a.capacity 2 ≡ 2 * a.capacity)
grow_no_wrap a v = (first, second)
  where
    es_le : a.elem_size ≤ a.elem_size * a.capacity
    es_le = grind (arith, v.some_room)

    double : mul64 2 a.elem_size ≡ 2 * a.elem_size
    double = let o = v.object in omega (arith, es_le)

    first : mul64 (mul64 2 a.elem_size) a.capacity ≡ 2 * (a.elem_size * a.capacity)
    first = let o = v.object in rw double (omega arith)

    second : mul64 a.capacity 2 ≡ 2 * a.capacity
    second = let o = v.object in omega (arith, le_of_mul a.elem_size a.capacity v.sized)

-- The first elements survive a move of the block.
elems_kept :
    (size n : ℕ) (old new_bytes : Bytes)
    → size * n ≤ length old
    → length old ≤ length new_bytes
    → take (length old) new_bytes ≡ old
    → chunks size n new_bytes ≡ chunks size n old
elems_kept size n old new_bytes h l e =
    sym (chunks-take size n (length old) new_bytes h l) ∙ ap (chunks size n) e

module _ (m : Memory) (a : Array) (b : Block) (law : IsLawful m) (v : IsValid a)
    (full : a.size ≡ a.capacity)
    (e : m.realloc_func a.data_block (mul64 (mul64 2 a.elem_size) a.capacity) ≡ some b) where
  grown : Array
  grown = record a { data_block = b; capacity = mul64 a.capacity 2 }

  grown_length :
      (length b.bytes ≡ 2 * (a.elem_size * a.capacity)) × (2 * (a.elem_size * a.capacity) < 2 ^ 63)
  grown_length = rw (grow_no_wrap a v).0 at (law.realloc_length a.data_block _ b e)

  grown-IsValid : IsValid grown
  unfolding grown
  grown-IsValid =
      let l = grown_length in
      let w = grow_no_wrap a v in omega (arith, ap (λ t. a.elem_size * t) w.1)

  grown-elems : elems grown ≡ elems a
  unfolding grown
  grown-elems =
      let l = grown_length in
      let s = v.storage in
      elems_kept a.elem_size a.size a.data_block.bytes b.bytes
        (omega (arith, mul_mono a.elem_size a.size a.capacity v.size_le)) (omega arith)
        (law.realloc_keep a.data_block _ b e (rw (grow_no_wrap a v).0 (omega arith)))

  grow_lem : (c : Array) × (grow m a ≡ ok (0, c)) × Roomy a c
  unfolding grow zd_realloc grown
  grow_lem = (
    grown,
    rw e refl,
    record {
      valid = grown-IsValid;
      same_size = refl;
      same_elem_size = refl;
      same_cmp = refl;
      same_elems = grown-elems;
      room = let w = grow_no_wrap a v in let r = v.some_room in omega arith;
      capacity = inr (full, (grow_no_wrap a v).1);
    },
  )

-- With memory enough there is room for one more element, and the elements are the same.
pub make_room_lem :
    (m : Memory) (a : Array)
    → IsLawful m
    → IsValid a
    → CanGrow m a
    → (c : Array) × (make_room m a ≡ ok (0, c)) × Roomy a c
unfolding make_room
make_room_lem m a law v (limit, grants, enough) = elim (Bool-cases (a.size == a.capacity)) [
  | inl full ↦ rw full (grow_lem m a got.0 law v ((==_iff _ _).0 full) got.1)
  | inr more ↦ rw more (
    a,
    refl,
    record {
      valid = v;
      same_size = refl;
      same_elem_size = refl;
      same_cmp = refl;
      same_elems = refl;
      room = let l = v.size_le in ground arith;
      capacity = inl refl;
    },
  )
]
  where
    got :
        (c : Block) × (m.realloc_func a.data_block (mul64 (mul64 2 a.elem_size) a.capacity)
          ≡ some c)
    got = grants.realloc a.data_block _ (rw (grow_no_wrap a v).0 enough)

-- When memory is full and the allocator has no more, the process ends.
pub make_room_exits :
    (m : Memory) (a : Array)
    → a.size ≡ a.capacity
    → m.realloc_func a.data_block (mul64 (mul64 2 a.elem_size) a.capacity) ≡ none
    → make_room m a ≡ exited
unfolding make_room grow zd_realloc
make_room_exits m a full e = rw (eq→== _ _ full, e) refl
