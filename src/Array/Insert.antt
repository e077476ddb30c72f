-- ===== src/Array/Insert.antt =====
-- `array_insert_at` against insertion into the list of elements.
use zdia.Prelude.{
  ℕ, ◌+◌, ◌*◌, ◌-◌, ◌≤◌, ◌<◌, ◌≡◌, ◌≢◌, refl, ap, ap₂, ◌∙◌, sym, ◌∷◌, ◌++◌, some, ok, fault, arith,
  length, take, drop, length-take, mul64, sub64, add64, eq→==, ne→==, le→leb, gt→leb,
}
use zdia.Bytes.{Bytes, chunks, splice, slice}
use zdia.Bytes.Splices.{length-splice}
use zdia.Bytes.Chunks.{drop-chunks, take-chunks}
use zdia.Bytes.Shifts.{length-slice, chunks-insert}
use zdia.Memory.{Block, Memory, IsLawful, zd_realloc}
use zdia.Array.{
  Array, enoent, elems, with_bytes, into, end, grow, make_room, store_at, insert, insert_at,
}
use zdia.Array.Inv.{IsValid, slot_in}
use zdia.Array.Push.{offset_no_wrap, size_no_wrap, read_elem}

module _ (a : Array) (i : ℕ) (e : Bytes) (v : IsValid a) (room : a.size < a.capacity)
    (within : i < a.size) (whole : a.elem_size ≤ length e) where
  es : ℕ
  es = a.elem_size

  src : Bytes
  src = take a.elem_size e

  length-src : length src ≡ a.elem_size
  unfolding src
  length-src = omega (arith, length-take a.elem_size e)

  -- The number of elements from slot `i` on.
  r : ℕ
  r = a.size - i

  split : i + r ≡ a.size
  unfolding r
  split = omega arith

  shifted : Bytes
  unfolding r
  shifted =
      splice a.data_block.bytes (a.elem_size * i + a.elem_size)
        (slice a.data_block.bytes (a.elem_size * i) (a.elem_size * r))

  inserted : Array
  inserted = record (with_bytes a (splice shifted (a.elem_size * i) src)) { size = a.size + 1 }

  sizes : a.elem_size * (i + r) + a.elem_size ≤ length a.data_block.bytes
  sizes = rw split (omega (arith, v.storage, slot_in a.elem_size a.size a.capacity room))

  length-shifted : length shifted ≡ length a.data_block.bytes
  unfolding shifted
  length-shifted =
      length-splice a.data_block.bytes _ (a.elem_size * i + a.elem_size)
        (omega (arith, sizes, length-slice a.data_block.bytes (a.elem_size * i) (a.elem_size * r)))

  inserted-IsValid : IsValid inserted
  unfolding inserted
  inserted-IsValid = record {
    sized = v.sized;
    some_room = v.some_room;
    size_le = omega arith;
    storage =
        length-splice shifted src (a.elem_size * i)
          (omega (arith, sizes, length-shifted, length-src))
        ∙ length-shifted
        ∙ v.storage;
    object = v.object;
  }

  inserted-elems : elems inserted ≡ take i (elems a) ++ (take a.elem_size e ∷ drop i (elems a))
  unfolding inserted shifted src r
  inserted-elems =
      ap (λ n. chunks a.elem_size n (splice shifted (a.elem_size * i) src)) count
      ∙ chunks-insert a.elem_size i r a.data_block.bytes src length-src sizes
      ∙ ap₂ (λ xs ys. xs ++ (take a.elem_size e ∷ ys))
          (front ∙ ap (λ n. take i (chunks a.elem_size n a.data_block.bytes)) split)
          (back ∙ ap (λ n. drop i (chunks a.elem_size n a.data_block.bytes)) split)
    where
      count : a.size + 1 ≡ i + (1 + r)
      count = omega (arith, split)

      front :
          chunks a.elem_size i a.data_block.bytes
          ≡ take i (chunks a.elem_size (i + r) a.data_block.bytes)
      front = sym (take-chunks a.elem_size i r a.data_block.bytes)

      back :
          chunks a.elem_size r (drop (a.elem_size * i) a.data_block.bytes)
          ≡ drop i (chunks a.elem_size (i + r) a.data_block.bytes)
      back = sym (drop-chunks a.elem_size i r a.data_block.bytes)

  store_at_lem : store_at a (into a (a.elem_size * i)) e ≡ ok (0, inserted)
  unfolding store_at inserted shifted src end r
  store_at_lem =
      rw
        (
          eq→== a.data_block.addr a.data_block.addr refl,
          offset_no_wrap a a.size v v.size_le,
          next_slot,
          rest,
          le→leb _ _ from_fits,
          le→leb _ _ to_fits,
          read_elem e a.elem_size whole,
          le→leb _ _ slot_fits,
          size_no_wrap a v room,
        )
        refl
    where
      total : a.elem_size * i + a.elem_size * (a.size - i) ≡ a.elem_size * a.size
      total = omega (arith, ap (λ t. a.elem_size * t) split)

      fit : a.elem_size * a.size + a.elem_size ≤ length a.data_block.bytes
      fit = omega (arith, v.storage, slot_in a.elem_size a.size a.capacity room)

      next_slot : add64 (a.elem_size * i) a.elem_size ≡ a.elem_size * i + a.elem_size
      next_slot = omega (arith, total, fit, v.storage, v.object)

      rest : sub64 (a.elem_size * a.size) (a.elem_size * i) ≡ a.elem_size * (a.size - i)
      rest = omega (arith, total, fit, v.storage, v.object)

      from_fits : a.elem_size * i + a.elem_size * (a.size - i) ≤ length a.data_block.bytes
      from_fits = omega (arith, total, fit)

      to_fits :
          a.elem_size * i + a.elem_size + a.elem_size * (a.size - i) ≤ length a.data_block.bytes
      to_fits = omega (arith, total, fit)

      slot_fits : a.elem_size * i + length (take a.elem_size e) ≤ length shifted
      slot_fits = omega (arith, total, fit, length-shifted, length-src)

module _ (m : Memory) (a : Array) (i : ℕ) (e : Bytes) (law : IsLawful m) (v : IsValid a) where
  -- On a valid array with a free slot, at a position below the size, and with memory that holds
  -- at least an element, `array_insert_at` succeeds: the array is valid and holds the element in
  -- front of that position, the others in order around it.
  pub insert_at_lem :
      a.size < a.capacity
      → i < a.size
      → a.elem_size ≤ length e
      → (b : Array) × (insert_at m a i e ≡ ok (0, b))
        × IsValid b
        × (elems b ≡ take i (elems a) ++ (take a.elem_size e ∷ drop i (elems a)))
        × (b.elem_size ≡ a.elem_size)
        × (b.capacity ≡ a.capacity)
  unfolding insert_at insert make_room inserted shifted src r
  insert_at_lem room within whole = (
    inserted a i e v room within whole,
    rw
        (
          gt→leb a.size i within,
          ne→== a.size a.capacity (omega arith),
          offset_no_wrap a i v (omega (arith, v.size_le)),
        )
        (store_at_lem a i e v room within whole),
    inserted-IsValid a i e v room within whole,
    inserted-elems a i e v room within whole,
    refl,
    refl,
  )

  -- On a valid array whose block is full, at a position below the size, `array_insert_at` faults
  -- whenever `realloc` moves the block: the position points into the old one.
  pub insert_at_stale :
      (c : Block)
      → a.size ≡ a.capacity
      → i < a.size
      → m.realloc_func a.data_block (mul64 (mul64 2 a.elem_size) a.capacity) ≡ some c
      → c.addr ≢ a.data_block.addr
      → insert_at m a i e ≡ fault
  unfolding insert_at insert make_room grow zd_realloc store_at
  insert_at_stale c full within got moved =
      rw
        (
          gt→leb a.size i within,
          eq→== a.size a.capacity full,
          got,
          ne→== a.data_block.addr c.addr (λ h. moved (sym h)),
        )
        refl

-- Past the last element `array_insert_at` reports ENOENT and changes nothing.
pub insert_at_past :
    (m : Memory) (a : Array) (i : ℕ) (e : Bytes) → a.size ≤ i → insert_at m a i e ≡ ok (enoent, a)
unfolding insert_at
insert_at_past m a i e h = rw (le→leb a.size i h) refl
