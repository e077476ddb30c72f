-- ===== src/Array/Refine/Whole.antt =====
-- array.c: any history of calls against the vector.
use zdia.Prelude.{
  ℕ, zero, suc, ◌≤◌, ◌≡◌, refl, sym, ap, subst, inl, inr, Bool-cases, none, some, List, [], ◌∷◌,
  length, get_elem?, ltb, ok, arith,
}
use zdia.Bytes.{Bytes}
use zdia.Bytes.Chunks.{length-chunks}
use zdia.Memory.{Memory, IsLawful, Grants}
use zdia.Array.{Array, elems, clear}
use zdia.Array.Inv.{IsValid}
use zdia.Array.Push.{at_lem}
use zdia.Array.Vector.{
  Call, pushes, pops, inserts, erases, reads, clears, Vector, Answer, vec_step, vec_run, Allowed,
  AllAllowed,
}
use zdia.Array.Refine.{vector, call, calls, Answers}
use zdia.Array.Refine.Changes.{push_step, pop_step, insert_step, erase_step}

get_elem?-none : (xs : List Bytes) (i : ℕ) → length xs ≤ i → get_elem? xs i ≡ none
get_elem?-none [] i h = refl
get_elem?-none (x ∷ xs) zero h = absurd (omega arith)
get_elem?-none (x ∷ xs) (suc i) h = get_elem?-none xs i (omega arith)

module _ (m : Memory) (law : IsLawful m) (limit : ℕ) (grants : Grants m limit) where
  read_step : (a : Array) (i : ℕ) → IsValid a → Answers m a (reads i)
  unfolding call vec_step
  read_step a i v = elim (Bool-cases (ltb i a.size)) [
    | inl within ↦
        let (p, e, x, e', g) = (at_lem a i v).0 (ground arith) in
        (
          (0, some x),
          a,
          rw (e, e') refl,
          record { valid = v; same_elem_size = refl; same_step = rw g refl },
        )
    | inr past ↦ (
      (0, none),
      a,
      rw ((at_lem a i v).1 (ground arith)) refl,
      record {
        valid = v;
        same_elem_size = refl;
        same_step =
            ap (λ y. ((0, y), vector a))
              (get_elem?-none (elems a) i
                (ground (arith, length-chunks a.elem_size a.size a.data_block.bytes)));
      },
    )
  ]

  clear_step : (a : Array) → IsValid a → Answers m a clears
  unfolding call vec_step clear
  clear_step a v = (
    (0, none),
    record a { size = 0 },
    refl,
    record {
      valid = record {
        sized = v.sized;
        some_room = v.some_room;
        size_le = omega arith;
        storage = v.storage;
        object = v.object;
      };
      same_elem_size = refl;
      same_step = refl;
    },
  )

  step : (c : Call) (a : Array) → IsValid a → Allowed a.elem_size limit (vector a) c → Answers m a c
  step (pushes x) a v h = push_step m law limit grants a x v h
  step pops a v h = pop_step m law limit grants a v
  step (inserts i x) a v h = insert_step m law limit grants a i x v h
  step (erases i) a v h = erase_step m law limit grants a i v h
  step (reads i) a v h = read_step a i v
  step clears a v h = clear_step a v

  -- On a valid array, any history of `array_push_back`, `array_pop_back`, `array_insert_at`,
  -- `array_erase_at`, `array_clear` and reads through `array_at` runs without a fault, and its
  -- statuses and the elements read are those of the vector with the array's elements and capacity.
  -- Conditions: each element pushed or inserted is of the array's element size; where the capacity
  -- doubles, the new block is below what the allocator grants; and where an element is inserted
  -- or erased, the array is not full.
  pub calls_refine :
      (cs : List Call) (a : Array)
      → IsValid a
      → AllAllowed a.elem_size limit (vector a) cs
      → calls m a cs ≡ ok (vec_run (vector a) cs)
  unfolding calls vec_run AllAllowed
  calls_refine [] a v h = refl
  calls_refine (c ∷ cs) a v (now, later) =
      let (answer, b, e, s) = step c a v now in
      let later' : AllAllowed b.elem_size limit (vector b) cs =
        subst (λ k. AllAllowed k limit (vector b) cs) (sym s.same_elem_size)
          (subst (λ (t : Answer × Vector). AllAllowed a.elem_size limit t.1 cs) s.same_step
            later) in
      rw (e, calls_refine cs b s.valid later')
        (ap (λ (t : Answer × Vector). ok (t.0 ∷ vec_run t.1 cs)) (sym s.same_step))
