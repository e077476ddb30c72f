-- ===== src/Dict/Load/Path.antt =====
-- dict.c: the path that `xml_elem_start` and `xml_elem_end` keep.
use Prim.Native.String.{String}
use zdia.Prelude.{
  ℕ, ◌+◌, ◌*◌, ◌≤◌, ◌<◌, ◌≡◌, ◌⊎◌, inl, inr, refl, ap, ◌∙◌, List, arith, ok, fault, length, ◌==◌,
  Bool-cases,
}
use zdia.Bytes.{Bytes}
use zdia.Memory.{Memory, IsLawful, Grants, zd_malloc}
use zdia.Heap.{zd_free}
use zdia.Array
use zdia.Array.{Array, push_back, pop_back}
use zdia.Array.Inv.{IsValid, CanGrow}
use zdia.Array.Push.{push_back_snoc, push_back_short}
use zdia.Dict.Text.{Libc}
use zdia.Dict.Xml.{ParseInfo, xml_elem_start}
use zdia.Dict.Xml.Attrs.{Attr, Junk}
use zdia.Dict.Load.{sizeof_pointer, nothing}

-- The path holds `depth` names, in a block of four or eight.
pub record IsPath (a : Array) (depth : ℕ) : Type 0 where
  pub valid : IsValid a
  pub pointers : a.elem_size ≡ 8
  pub size : a.size ≡ depth
  pub capacity : (a.capacity ≡ 4) ⊎ (a.capacity ≡ 8)

module _ (m : Memory) (law : IsLawful m) (limit : ℕ) (grants : Grants m limit)
    (room : 128 < limit) where
  can_grow : (a : Array) (depth : ℕ) → IsPath a depth → CanGrow m a
  can_grow a depth p = (limit, grants, bound p.capacity)
    where
      bound : (a.capacity ≡ 4) ⊎ (a.capacity ≡ 8) → 2 * (a.elem_size * a.capacity) < limit
      bound (inl e) = rw (p.pointers, e) (omega arith)
      bound (inr e) = rw (p.pointers, e) (omega arith)

  pub push-IsPath :
      (a : Array) (depth : ℕ) (name : Bytes)
      → IsPath a depth
      → depth < 8
      → 8 ≤ length name
      → (b : Array) × (push_back m a name ≡ ok (0, b)) × IsPath b (depth + 1)
  push-IsPath a depth name p deep readable =
      let (b, ran, pushed) =
        push_back_snoc m a name law p.valid (can_grow a depth p) (omega (arith, p.pointers)) in
      (
        b,
        ran,
        record {
          valid = pushed.valid;
          pointers = pushed.same_elem_size ∙ p.pointers;
          size = pushed.one_more ∙ ap (λ t. t + 1) p.size;
          capacity = grown b pushed.capacity p.capacity;
        },
      )
    where
      grown :
          (b : Array)
          → (b.capacity ≡ a.capacity) ⊎ ((a.size ≡ a.capacity) × (b.capacity ≡ 2 * a.capacity))
          → (a.capacity ≡ 4) ⊎ (a.capacity ≡ 8)
          → (b.capacity ≡ 4) ⊎ (b.capacity ≡ 8)
      grown b (inl same) (inl e) = inl (same ∙ e)
      grown b (inl same) (inr e) = inr (same ∙ e)
      grown b (inr (full, twice)) (inl e) = inr (omega arith)
      grown b (inr (full, twice)) (inr e) = absurd (omega (arith, p.size))

  -- With memory enough, a name of which the copy cannot be read for eight bytes, the size of a
  -- pointer, makes `xml_elem_start` fault: it pushes bytes of the copy where it means the pointer.
  pub xml_elem_start-short :
      (c : Libc) (junk : Junk) (info : ParseInfo) (name : String) (attrs : List Attr) (depth : ℕ)
      → IsPath info.path depth
      → length (c.strdup name) < 8
      → xml_elem_start c junk m info name attrs ≡ fault
  unfolding xml_elem_start
  xml_elem_start-short c junk info name attrs depth p short =
      rw
        (push_back_short m info.path (c.strdup name) law p.valid (can_grow info.path depth p)
          (omega (arith, p.pointers)))
        refl

-- `array_init` makes an empty path where the old one is null, and faults otherwise.
pub init-IsPath :
    (m : Memory) (law : IsLawful m) (limit : ℕ)
    → Grants m limit
    → 128 < limit
    → (a : Array)
    → (Array.init m a sizeof_pointer nothing ≡ fault)
      ⊎ ((path : Array) × (Array.init m a sizeof_pointer nothing ≡ ok (path, nothing))
          × IsPath path 0)
unfolding Array.init zd_malloc zd_free
init-IsPath m law limit grants room a =
    let (b, granted) = grants.alloc 32 (omega arith) in
    let (size, _) = law.alloc_length 32 b granted in
    elim (Bool-cases (a.data_block.addr == 0)) [
      | inl null ↦ inr (
        Array.fresh 8 b,
        rw (null, granted) refl,
        record {
          valid = record {
            sized = omega arith;
            some_room = omega arith;
            size_le = omega arith;
            storage = size;
            object = omega arith;
          };
          pointers = refl;
          size = refl;
          capacity = inl refl;
        },
      )
      | inr junk_pointer ↦ inl (rw junk_pointer refl)
    ]
