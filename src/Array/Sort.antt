-- ===== src/Array/Sort.antt =====
-- array.c: `array_sort`. `qsort` of the C library is a parameter: the elements that it leaves.
use mathlib.Core.List.{Permᴰ}
use zdia.Prelude.{
  All-Permᴰ, Permᴰ-length, take-append_length, drop-append_length, ℕ, zero, suc, ◌*◌, ◌≤◌, ◌≡◌,
  refl, ap, ap₂, subst, ◌∙◌, Option, none, some, List, [], ◌∷◌, ◌++◌, length, drop, Run, ok, fault,
  leb, if◌then◌else◌, arith, ℤ, All, length-append, length-drop, length-take,
}
use zdia.Bytes.{Bytes, chunks}
use zdia.Bytes.Chunks.{length-chunks, chunks-append_le}
use zdia.Array.{Array, elems, with_bytes}
use zdia.Array.Inv.{IsValid, mul_mono}

abbrev pub bytes_of : List Bytes → Bytes
bytes_of [] = []
bytes_of (x ∷ xs) = x ++ bytes_of xs

-- The bytes behind the last element stay.
abbrev pub rearranged : Array → List Bytes → Array
rearranged a xs = with_bytes a (bytes_of xs ++ drop (a.elem_size * a.size) a.data_block.bytes)

module _ (qsort : (Bytes → Bytes → ℤ) → List Bytes → List Bytes) where
  -- A null `cmp` is called where there are two elements to compare.
  unfoldable pub sort_by : Array → Option (Bytes → Bytes → ℤ) → Run Array
  sort_by a none = if leb a.size 1 then ok a else fault
  sort_by a (some f) = ok (rearranged a (qsort f (elems a)))

  unfoldable pub array_sort : Array → Run Array
  unfolding sort_by
  array_sort a = sort_by a a.cmp

abbrev Sized : ℕ → List Bytes → Type 0
Sized size xs = All (λ (x : Bytes). length x ≡ size) xs

length-bytes_of :
    (size : ℕ) (xs : List Bytes) → Sized size xs → length (bytes_of xs) ≡ size * length xs
length-bytes_of size [] h = omega arith
length-bytes_of size (x ∷ xs) (h, hs) =
    omega (arith, length-append x (bytes_of xs), length-bytes_of size xs hs)

chunks-bytes_of :
    (size : ℕ) (xs : List Bytes) → Sized size xs → chunks size (length xs) (bytes_of xs) ≡ xs
chunks-bytes_of size [] h = refl
chunks-bytes_of size (x ∷ xs) (h, hs) = ap₂ ◌∷◌ (take-append_length x (bytes_of xs) size h) (
    ap (chunks size (length xs)) (drop-append_length x (bytes_of xs) size h)
    ∙ chunks-bytes_of size xs hs)

chunks-Sized : (size n : ℕ) (bs : Bytes) → size * n ≤ length bs → Sized size (chunks size n bs)
chunks-Sized size zero bs h = tt
chunks-Sized size (suc n) bs h = (
  omega (arith, length-take size bs),
  chunks-Sized size n (drop size bs) (omega (arith, length-drop size bs)),
)

-- On a valid array with a comparison, `array_sort` leaves a valid array of the same capacity whose
-- elements are those that `qsort` leaves of its elements, if `qsort` only rearranges.
array_sort-elems :
    (qsort : (Bytes → Bytes → ℤ) → List Bytes → List Bytes) (f : Bytes → Bytes → ℤ) (a : Array)
    → Permᴰ (elems a) (qsort f (elems a))
    → IsValid a
    → a.cmp ≡ some f
    → (b : Array) × (array_sort qsort a ≡ ok b)
      × IsValid b
      × (elems b ≡ qsort f (elems a))
      × (b.capacity ≡ a.capacity)
unfolding array_sort
array_sort-elems qsort f a perm v set =
    let xs = qsort f (elems a) in
    let rest = drop (a.elem_size * a.size) a.data_block.bytes in
    let inside : a.elem_size * a.size ≤ length a.data_block.bytes =
      omega (arith, v.storage, mul_mono a.elem_size a.size a.capacity v.size_le) in
    let sized : Sized a.elem_size xs =
      All-Permᴰ (λ (x : Bytes). length x ≡ a.elem_size) perm
        (chunks-Sized a.elem_size a.size a.data_block.bytes inside) in
    let count : length xs ≡ a.size =
      Permᴰ-length perm ∙ length-chunks a.elem_size a.size a.data_block.bytes in
    let total : length (bytes_of xs) ≡ a.elem_size * a.size =
      length-bytes_of a.elem_size xs sized ∙ ap (λ n. a.elem_size * n) count in
    (
      rearranged a xs,
      rw set refl,
      record {
        sized = v.sized;
        some_room = v.some_room;
        size_le = v.size_le;
        storage = omega (
          arith,
          length-append (bytes_of xs) rest,
          length-drop (a.elem_size * a.size) a.data_block.bytes,
          total,
          inside,
          v.storage,
        );
        object = v.object;
      },
      chunks-append_le a.elem_size a.size (bytes_of xs) rest (omega (arith, total))
          ∙ subst (λ n. chunks a.elem_size n (bytes_of xs) ≡ xs) count
              (chunks-bytes_of a.elem_size xs sized),
      refl,
    )
