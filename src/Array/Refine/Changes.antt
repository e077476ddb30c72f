-- ===== src/Array/Refine/Changes.antt =====
-- array.c: the calls that change the elements, against the vector.
use zdia.Prelude.{
  ℕ, ◌+◌, ◌*◌, ◌≤◌, ◌≡◌, ◌⊎◌, refl, sym, ap, ap₂, ◌∙◌, inl, inr, Bool-cases, none, [], ◌∷◌, ◌++◌,
  take, drop, take_all, ltb, ◌==◌, if◌then◌else◌, arith,
}
use zdia.Bytes.{Bytes}
use zdia.Bytes.Chunks.{length-chunks}
use zdia.Memory.{Memory, IsLawful, Grants}
use zdia.Array.{Array, enoent, elems, pop_back}
use zdia.Array.Inv.{IsValid}
use zdia.Array.Push.{Pushed, push_back_snoc, pop_back_lem}
use zdia.Array.Insert.{insert_at_lem, insert_at_past}
use zdia.Array.Erase.{erase_at_lem, erase_at_past}
use zdia.Array.Vector.{pushes, pops, inserts, erases, vec_step, room_for_push, Allowed}
use zdia.Array.Refine.{vector, call, Answers}

pop_back_fields :
    (a : Array)
    → ((pop_back a).1.elem_size ≡ a.elem_size)
      × ((if ltb 0 a.size then 0 else enoent) ≡ (pop_back a).0)
      × (a.capacity ≡ (pop_back a).1.capacity)
unfolding pop_back
pop_back_fields a = elim (Bool-cases (ltb 0 a.size)) [
  | inl e ↦ rw e (refl, refl, refl)
  | inr e ↦ rw e (refl, refl, refl)
]

module _ (m : Memory) (law : IsLawful m) (limit : ℕ) (grants : Grants m limit) where
  room_for_push-capacity :
      (a b : Array) (x : Bytes) → Pushed a x b → room_for_push (vector a) ≡ b.capacity
  room_for_push-capacity a b x p =
      let w = p.valid.size_le in
      let one = p.one_more in
      rw (length-chunks a.elem_size a.size a.data_block.bytes) (by_room w one p.capacity)
    where
      by_room :
          b.size ≤ b.capacity
          → b.size ≡ a.size + 1
          → (b.capacity ≡ a.capacity) ⊎ ((a.size ≡ a.capacity) × (b.capacity ≡ 2 * a.capacity))
          → (if a.size == a.capacity then 2 * a.capacity else a.capacity) ≡ b.capacity
      by_room w one c = ground arith

  pub push_step :
      (a : Array) (x : Bytes)
      → IsValid a
      → Allowed a.elem_size limit (vector a) (pushes x)
      → Answers m a (pushes x)
  unfolding call vec_step
  push_step a x v (sized, enough) =
      let (b, e, p) = push_back_snoc m a x law v (limit, grants, enough) (omega arith) in
      (
        (0, none),
        b,
        rw e refl,
        record {
          valid = p.valid;
          same_elem_size = p.same_elem_size;
          same_step =
              ap₂ (λ n xs. ((0, none), record { capacity = n; items = xs }))
                (room_for_push-capacity a b x p)
                (ap (λ y. elems a ++ (y ∷ [])) (sym (take_all x a.elem_size (omega arith)))
                  ∙ sym p.snoc);
        },
      )

  pub pop_step : (a : Array) → IsValid a → Answers m a pops
  unfolding call vec_step
  pop_step a v =
      let (valid, items, _, _) = pop_back_lem a v in
      let (es, status, cap) = pop_back_fields a in
      (
        ((pop_back a).0, none),
        (pop_back a).1,
        refl,
        record {
          valid = valid;
          same_elem_size = es;
          same_step = rw (length-chunks a.elem_size a.size a.data_block.bytes) (
              ap₂ (λ t xs. ((t, none), record { capacity = a.capacity; items = xs })) status
                (sym items)
              ∙ ap
                  (λ k.
                    (((pop_back a).0, none), record { capacity = k; items = elems (pop_back a).1 }))
                  cap);
        },
      )

  pub insert_step :
      (a : Array) (i : ℕ) (x : Bytes)
      → IsValid a
      → Allowed a.elem_size limit (vector a) (inserts i x)
      → Answers m a (inserts i x)
  unfolding call vec_step
  insert_step a i x v (sized, room) =
      let n = length-chunks a.elem_size a.size a.data_block.bytes in
      elim (Bool-cases (ltb i a.size)) [
        | inl within ↦
            let (b, e, valid, items, es, cap) =
              insert_at_lem m a i x law v (omega (arith, n)) (ground arith) (omega arith) in
            (
              (0, none),
              b,
              rw e refl,
              record {
                valid = valid;
                same_elem_size = es;
                same_step =
                    rw (n, within)
                      (ap₂ (λ k xs. ((0, none), record { capacity = k; items = xs })) (sym cap)
                        (ap (λ y. take i (elems a) ++ (y ∷ drop i (elems a)))
                            (sym (take_all x a.elem_size (omega arith)))
                          ∙ sym items));
              },
            )
        | inr past ↦ (
          (enoent, none),
          a,
          rw (insert_at_past m a i x (ground arith)) refl,
          record { valid = v; same_elem_size = refl; same_step = rw (n, past) refl },
        )
      ]

  pub erase_step :
      (a : Array) (i : ℕ)
      → IsValid a
      → Allowed a.elem_size limit (vector a) (erases i)
      → Answers m a (erases i)
  unfolding call vec_step
  erase_step a i v room =
      let n = length-chunks a.elem_size a.size a.data_block.bytes in
      elim (Bool-cases (ltb i a.size)) [
        | inl within ↦
            let (b, e, valid, items, es, cap) =
              erase_at_lem a i v (ground arith) (omega (arith, n)) in
            (
              (0, none),
              b,
              rw e refl,
              record {
                valid = valid;
                same_elem_size = es;
                same_step =
                    rw (n, within)
                      (ap₂ (λ k xs. ((0, none), record { capacity = k; items = xs })) (sym cap)
                        (sym items));
              },
            )
        | inr past ↦ (
          (enoent, none),
          a,
          rw (erase_at_past a i (ground arith)) refl,
          record { valid = v; same_elem_size = refl; same_step = rw (n, past) refl },
        )
      ]
