-- ===== src/Array/Push.antt =====
-- `array_new`, `array_push_back`, `array_pop_back` and `array_at` against the list of elements.
use zdia.Prelude.{
  ℕ, ◌⊎◌, add64, ◌+◌, ◌*◌, ◌-◌, ◌^◌, ◌≤◌, ◌<◌, ◌≡◌, refl, ap, ◌∙◌, ap₂, ◌↔◌, sym, Bool-cases, inl,
  inr, eq→==, [], ◌∷◌, ◌++◌, some, none, ok, exited, fault, lt→ltb, arith, length, take,
  length-take, mul64, sub64, ltb, le→leb, gt→leb, get_elem?,
}
use zdia.Bytes.{Bytes, chunks, splice, slice, read}
use zdia.Bytes.Splices.{length-splice}
use zdia.Bytes.Chunks.{chunks-splice_snoc, take-chunks, get_elem?-chunks}
use zdia.Memory.{Memory, IsLawful, Grants, zd_malloc}
use zdia.Array.{
  sizeof_array, Array, Ptr, enoent, elems, with_bytes, fresh, into, new, store_back, push_back,
  pop_back, at, deref,
}
use zdia.Array.Inv.{IsValid, CanGrow, make_room_lem, make_room_exits, slot_in, mul_mono, le_of_mul}

-- `b` is `a` with element `e` behind the others.
pub record Pushed (a : Array) (e : Bytes) (b : Array) : Type 0 where
  pub valid : IsValid b
  pub same_elem_size : b.elem_size ≡ a.elem_size
  pub same_cmp : b.cmp ≡ a.cmp
  pub one_more : b.size ≡ a.size + 1
  pub snoc : elems b ≡ elems a ++ (take a.elem_size e ∷ [])
  pub capacity : (b.capacity ≡ a.capacity) ⊎ ((a.size ≡ a.capacity) × (b.capacity ≡ 2 * a.capacity))

-- The offset of slot `i` does not wrap.
pub offset_no_wrap :
    (a : Array) (i : ℕ) → IsValid a → i ≤ a.capacity → mul64 a.elem_size i ≡ a.elem_size * i
offset_no_wrap a i v h = let o = v.object in omega (arith, mul_mono a.elem_size i a.capacity h)

pub read_elem : (e : Bytes) (n : ℕ) → n ≤ length e → read e 0 n ≡ ok (take n e)
read_elem e n h = let z : 0 + n ≡ n = omega arith in rw (z, le→leb n (length e) h) refl

back_offset : (a : Array) → IsValid a → mul64 a.size a.elem_size ≡ a.elem_size * a.size
back_offset a v =
    let o = v.object in omega (arith, mul_mono a.elem_size a.size a.capacity v.size_le)

pub size_no_wrap : (a : Array) → IsValid a → a.size < a.capacity → add64 a.size 1 ≡ a.size + 1
size_no_wrap a v h = let o = v.object in omega (arith, le_of_mul a.elem_size a.capacity v.sized)

module _ (a : Array) (e : Bytes) (v : IsValid a) (room : a.size < a.capacity)
    (whole : a.elem_size ≤ length e) where
  src : Bytes
  src = take a.elem_size e

  length-src : length src ≡ a.elem_size
  unfolding src
  length-src = omega (arith, length-take a.elem_size e)

  stored : Array
  stored = record (with_bytes a (splice a.data_block.bytes (a.elem_size * a.size) src)) {
    size = a.size + 1;
  }

  fits : a.elem_size * a.size + length src ≤ length a.data_block.bytes
  fits = let s = v.storage in omega (arith, length-src, slot_in a.elem_size a.size a.capacity room)

  stored-Pushed : Pushed a e stored
  unfolding stored src
  stored-Pushed = record {
    valid = record {
      sized = v.sized;
      some_room = v.some_room;
      size_le = omega arith;
      storage =
          length-splice a.data_block.bytes (take a.elem_size e) (a.elem_size * a.size) fits
          ∙ v.storage;
      object = v.object;
    };
    same_elem_size = refl;
    same_cmp = refl;
    one_more = refl;
    snoc =
        chunks-splice_snoc a.elem_size a.size a.data_block.bytes (take a.elem_size e) length-src
          (omega (arith, fits));
    capacity = inl refl;
  }

  store_back_lem : store_back a e ≡ ok (0, stored)
  unfolding store_back stored src
  store_back_lem =
      rw (read_elem e a.elem_size whole, back_offset a v, le→leb _ _ fits, size_no_wrap a v room)
        refl

module _ (m : Memory) (a : Array) (e : Bytes) (law : IsLawful m) (v : IsValid a) where
  -- On a valid array whose block can be doubled, and memory that holds at least an element,
  -- `array_push_back` succeeds, full block or not, and the array is valid and holds the element
  -- behind the others.
  pub push_back_snoc :
      CanGrow m a
      → a.elem_size ≤ length e
      → (b : Array) × (push_back m a e ≡ ok (0, b)) × Pushed a e b
  unfolding push_back stored
  push_back_snoc g whole =
      let (c, e1, r) = make_room_lem m a law v g in
      let w : c.elem_size ≤ length e = rw r.same_elem_size whole in
      let p = stored-Pushed c e r.valid r.room w in
      (
        stored c e r.valid r.room w,
        rw e1 (store_back_lem c e r.valid r.room w),
        record {
          valid = p.valid;
          same_elem_size = p.same_elem_size ∙ r.same_elem_size;
          same_cmp = p.same_cmp ∙ r.same_cmp;
          one_more = p.one_more ∙ ap (λ t. t + 1) r.same_size;
          capacity = r.capacity;
          snoc = p.snoc ∙ ap₂ (λ xs t. xs ++ (take t e ∷ [])) r.same_elems r.same_elem_size;
        },
      )

  -- Where the memory from the pointer on is shorter than an element, the `memcpy` reads past it.
  pub push_back_short : CanGrow m a → length e < a.elem_size → push_back m a e ≡ fault
  unfolding push_back store_back
  push_back_short g short =
      let (c, e1, r) = make_room_lem m a law v g in
      rw (e1, gt→leb (0 + c.elem_size) (length e) (omega (arith, r.same_elem_size))) refl

  -- When the block is full and the allocator returns null, `array_push_back` ends the process.
  pub push_back_exits :
      a.size ≡ a.capacity
      → m.realloc_func a.data_block (mul64 (mul64 2 a.elem_size) a.capacity) ≡ none
      → push_back m a e ≡ exited
  unfolding push_back
  push_back_exits full null = rw (make_room_exits m a full null) refl

-- With memory enough, `array_new` for a positive element size returns a valid array of that size
-- without elements.
new-IsValid :
    (m : Memory) (size limit : ℕ)
    → IsLawful m
    → Grants m limit
    → 0 < size
    → size * 4 < limit
    → sizeof_array < limit
    → limit ≤ 2 ^ 63
    → (a : Array) × (new m size ≡ ok a) × IsValid a × (elems a ≡ []) × (a.elem_size ≡ size)
unfolding new zd_malloc
new-IsValid m size limit law g h small room big =
    let w : mul64 size 4 ≡ size * 4 = omega arith in
    let (arr, own) = g.alloc sizeof_array room in
    let (b, e) = g.alloc (size * 4) small in
    (
      fresh size b,
      rw (own, w, e) refl,
      record {
        sized = h;
        some_room = omega arith;
        size_le = omega arith;
        storage = (law.alloc_length (size * 4) b e).0;
        object = omega arith;
      },
      refl,
      refl,
    )

-- On a valid array, `array_pop_back` leaves a valid array without the last element; its status is
-- 0 exactly if there was one, and ENOENT exactly if there was none.
pub pop_back_lem :
    (a : Array)
    → IsValid a
    → let (status, b) = pop_back a in
      IsValid b
      × (elems b ≡ take (a.size - 1) (elems a))
      × ((status ≡ 0) ↔ (0 < a.size))
      × ((status ≡ enoent) ↔ (a.size ≡ 0))
unfolding pop_back
pop_back_lem a v = elim (Bool-cases (ltb 0 a.size)) [
  | inl more ↦ rw more (
    ground (arith, le_of_mul a.elem_size a.capacity v.sized),
    fewer (ground arith),
    ground arith,
    ground arith,
  )
  | inr empty ↦ rw empty (v, all_gone (ground arith), ground arith, ground arith)
]
  where
    fewer :
        0 < a.size
        → chunks a.elem_size (sub64 a.size 1) a.data_block.bytes ≡ take (a.size - 1) (elems a)
    fewer h =
        let o = v.object in
        let l = v.size_le in
        let e : sub64 a.size 1 ≡ a.size - 1 =
          omega (arith, le_of_mul a.elem_size a.capacity v.sized) in
        rw e (
          sym (take-chunks a.elem_size (a.size - 1) 1 a.data_block.bytes)
          ∙ ap (λ n. take (a.size - 1) (chunks a.elem_size n a.data_block.bytes)) (omega arith))

    all_gone : a.size ≡ 0 → elems a ≡ take (a.size - 1) (elems a)
    all_gone h = rw h refl

pub pop_back_step :
    (a : Array) → IsValid a → 0 < a.size → pop_back a ≡ (0, record a { size = a.size - 1 })
unfolding pop_back
pop_back_step a v more =
    let o = v.object in
    let l = v.size_le in
    let e : sub64 a.size 1 ≡ a.size - 1 = omega (arith, le_of_mul a.elem_size a.capacity v.sized) in
    rw (lt→ltb 0 a.size more) (ap (λ n. (0, record a { size = n })) e)

-- On a valid array, `array_at` returns a pointer that reads as the element at the position, if
-- that is below the size, and null otherwise.
pub at_lem :
    (a : Array) (i : ℕ)
    → IsValid a
    → ((i < a.size)
        → (p : Ptr) × (at a i ≡ some p)
          × (e : Bytes) × (deref a p ≡ ok e)
          × (get_elem? (elems a) i ≡ some e))
      × (a.size ≤ i → at a i ≡ none)
unfolding at deref
at_lem a i v = (
  λ h.
      let w = offset_no_wrap a i v (omega (arith, v.size_le)) in
      let fits : a.elem_size * i + a.elem_size ≤ length a.data_block.bytes =
        omega (arith, v.storage, slot_in a.elem_size i a.capacity (omega (arith, v.size_le))) in
      (
        into a (a.elem_size * i),
        rw (gt→leb a.size i h, w) refl,
        slice a.data_block.bytes (a.elem_size * i) a.elem_size,
        rw (eq→== a.data_block.addr a.data_block.addr refl, le→leb _ _ fits) refl,
        get_elem?-chunks a.elem_size a.size i a.data_block.bytes h,
      ),
  λ h. rw (le→leb a.size i h) refl,
)
