-- ===== src/Array/Erase.antt =====
-- `array_erase_at` against removal from the list of elements, and where it reads too far.
use zdia.Prelude.{
  ℕ, ◌+◌, ◌*◌, ◌-◌, ◌≤◌, ◌<◌, ◌≡◌, refl, ap, ap₂, ◌∙◌, sym, ◌++◌, ok, fault, arith, length, take,
  drop, mul64, sub64, add64, ◌↔◌, eq→==, le→leb, gt→leb,
}
use zdia.Bytes.{chunks, splice, slice}
use zdia.Bytes.Splices.{length-splice}
use zdia.Bytes.Chunks.{drop-chunks, take-chunks}
use zdia.Bytes.Shifts.{length-slice, chunks-erase}
use zdia.Array.{Array, enoent, elems, with_bytes, end, erase, erase_at}
use zdia.Array.Inv.{IsValid, slot_in, mul_mono, le_of_mul}

module _ (a : Array) (i : ℕ) (v : IsValid a) (within : i < a.size) where
  -- The number of elements behind slot `i`.
  r : ℕ
  r = a.size - i - 1

  -- What `array_end(arr) - pos - 1` counts.
  moved_bytes : ℕ
  moved_bytes = a.elem_size * a.size - a.elem_size * i - 1

  split : i + (1 + r) ≡ a.size
  unfolding r
  split = omega arith

  total : a.elem_size * i + a.elem_size + a.elem_size * r ≡ a.elem_size * a.size
  total = omega (arith, ap (λ t. a.elem_size * t) split)

  fits_size : a.elem_size * a.size ≤ length a.data_block.bytes
  fits_size = omega (arith, v.storage, mul_mono a.elem_size a.size a.capacity v.size_le)

  offsets :
      (mul64 a.elem_size i ≡ a.elem_size * i)
      × (mul64 a.elem_size a.size ≡ a.elem_size * a.size)
      × (add64 (a.elem_size * i) a.elem_size ≡ a.elem_size * i + a.elem_size)
      × (sub64 (sub64 (a.elem_size * a.size) (a.elem_size * i)) 1 ≡ moved_bytes)
      × (sub64 a.size 1 ≡ a.size - 1)
  unfolding moved_bytes
  offsets =
      let s = v.storage in
      let o = v.object in
      let z = v.sized in omega (arith, total, fits_size, le_of_mul a.elem_size a.size z)

  -- The `memmove` stays in the block exactly if there is a free slot, or an element is one byte.
  stays :
      (a.elem_size * i + a.elem_size + moved_bytes ≤ length a.data_block.bytes)
      ↔ (a.elem_size * a.size + a.elem_size ≤ length a.data_block.bytes + 1)
  unfolding moved_bytes
  stays = let z = v.sized in omega (arith, total)

  erased : Array
  erased =
      record (with_bytes a (
        splice a.data_block.bytes (a.elem_size * i)
          (slice a.data_block.bytes (a.elem_size * i + a.elem_size) moved_bytes))) {
            size = a.size - 1;
          }

  erase_at_stays :
      a.elem_size * a.size + a.elem_size ≤ length a.data_block.bytes + 1
      → erase_at a i ≡ ok (0, erased)
  unfolding erase_at erase end erased
  erase_at_stays h =
      let (o1, o2, o3, o4, o5) = offsets in
      let from_fits = stays.1 h in
      let to_fits : a.elem_size * i + moved_bytes ≤ length a.data_block.bytes = omega arith in
      rw
        (
          gt→leb a.size i within,
          o1,
          eq→== a.data_block.addr a.data_block.addr refl,
          o2,
          o3,
          o4,
          le→leb _ _ from_fits,
          le→leb _ _ to_fits,
          o5,
        )
        refl

  erased-IsValid :
      a.elem_size * a.size + a.elem_size ≤ length a.data_block.bytes + 1 → IsValid erased
  unfolding erased
  erased-IsValid h = record {
    sized = v.sized;
    some_room = v.some_room;
    size_le = omega (arith, v.size_le);
    storage =
        length-splice a.data_block.bytes _ (a.elem_size * i) (
          omega (
            arith,
            stays.1 h,
            length-slice a.data_block.bytes (a.elem_size * i + a.elem_size) moved_bytes (stays.1 h),
          ))
        ∙ v.storage;
    object = v.object;
  }

  erased-elems :
      a.elem_size * a.size + a.elem_size ≤ length a.data_block.bytes + 1
      → elems erased ≡ take i (elems a) ++ drop (i + 1) (elems a)
  unfolding erased moved_bytes
  erased-elems h =
      ap (λ n. chunks a.elem_size n erased.data_block.bytes) (omega (arith, split))
      ∙ chunks-erase a.elem_size i r a.data_block.bytes moved_bytes
          (let z = v.sized in omega (arith, total)) (stays.1 h)
      ∙ ap₂ ◌++◌
          (sym (take-chunks a.elem_size i (1 + r) a.data_block.bytes)
            ∙ ap (λ n. take i (chunks a.elem_size n a.data_block.bytes)) split)
          (ap (λ k. chunks a.elem_size r (drop k a.data_block.bytes)) next_slot
            ∙ sym (drop-chunks a.elem_size (i + 1) r a.data_block.bytes)
            ∙ ap (λ n. drop (i + 1) (chunks a.elem_size n a.data_block.bytes)) count)
    where
      next_slot : a.elem_size * i + a.elem_size ≡ a.elem_size * (i + 1)
      next_slot = omega arith

      count : i + 1 + r ≡ a.size
      count = omega (arith, split)

  -- On a valid array with a free slot, at a position below the size, `array_erase_at` succeeds:
  -- the array is valid and holds the other elements, in order.
  pub erase_at_lem :
      a.size < a.capacity
      → (b : Array) × (erase_at a i ≡ ok (0, b))
        × IsValid b
        × (elems b ≡ take i (elems a) ++ drop (i + 1) (elems a))
        × (b.elem_size ≡ a.elem_size)
        × (b.capacity ≡ a.capacity)
  unfolding erased
  erase_at_lem room =
      let h : a.elem_size * a.size + a.elem_size ≤ length a.data_block.bytes + 1 =
        omega (arith, v.storage, slot_in a.elem_size a.size a.capacity room) in
      (erased, erase_at_stays h, erased-IsValid h, erased-elems h, refl, refl)

  past_end :
      a.size ≡ a.capacity
      → 2 ≤ a.elem_size
      → length a.data_block.bytes < a.elem_size * i + a.elem_size + moved_bytes
  unfolding moved_bytes
  past_end full wide = let s = v.storage in omega (arith, total, ap (λ t. a.elem_size * t) full)

  -- On a valid array whose block is full of elements of two bytes or more, at a position below
  -- the size, `array_erase_at` faults: its `memmove` reads past the end of the block.
  pub erase_at_overrun : a.size ≡ a.capacity → 2 ≤ a.elem_size → erase_at a i ≡ fault
  unfolding erase_at erase end
  erase_at_overrun full wide =
      let (o1, o2, o3, o4, o5) = offsets in
      rw
        (
          gt→leb a.size i within,
          o1,
          eq→== a.data_block.addr a.data_block.addr refl,
          o2,
          o3,
          o4,
          gt→leb _ _ (past_end full wide),
        )
        refl

-- Past the last element `array_erase_at` reports ENOENT and changes nothing.
pub erase_at_past : (a : Array) (i : ℕ) → a.size ≤ i → erase_at a i ≡ ok (enoent, a)
unfolding erase_at
erase_at_past a i h = rw (le→leb a.size i h) refl
