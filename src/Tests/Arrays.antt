-- ===== src/Tests/Arrays.antt =====
-- array.c at arrays of two-byte elements.
use zdia.Prelude.{
  ℕ, ◌*◌, ◌≡◌, refl, none, some, List, [], ◌∷◌, arith, ok, fault, ℤ, pos, ◌==◌, if◌then◌else◌,
}
use zdia.Bytes.{Bytes}
use zdia.Array.Sort.{sort_by, array_sort}
use zdia.Array.{elems, Array, insert_at, erase_at, find, into}
use zdia.Array.Inv.{IsValid}
use zdia.Array.Insert.{insert_at_stale}
use zdia.Array.Erase.{erase_at_overrun}
use zdia.Array.Find.{Stops, find-Stops}
use zdia.Array.Vector.{
  Call, reads, erases, inserts, pops, pushes, clears, vec_step, vec_run, AllAllowed,
}
use zdia.Array.Refine.{vector, calls}
use zdia.Array.Refine.Whole.{calls_refine}
use zdia.Tests.Libc.{libc, libc-IsLawful, libc-Grants, limit, moved_block}

abbrev two_of_three : Array
two_of_three = record {
  elem_size = 2;
  capacity = 3;
  size = 2;
  cmp = none;
  data_block = record { addr = 1; bytes = 10 ∷ 11 ∷ 20 ∷ 21 ∷ 0 ∷ 0 ∷ [] };
}

abbrev full_pair : Array
full_pair = record {
  elem_size = 2;
  capacity = 2;
  size = 2;
  cmp = none;
  data_block = record { addr = 1; bytes = 10 ∷ 11 ∷ 20 ∷ 21 ∷ [] };
}

abbrev element : Bytes
element = 30 ∷ 31 ∷ []

two_of_three-IsValid : IsValid two_of_three
two_of_three-IsValid = omega arith

full_pair-IsValid : IsValid full_pair
full_pair-IsValid = omega arith

insert_at_stale_example : insert_at libc full_pair 1 element ≡ fault
insert_at_stale_example =
    insert_at_stale libc full_pair 1 element libc-IsLawful full_pair-IsValid
      (moved_block full_pair.data_block 8) refl (omega arith) refl (omega arith)

erase_at_overrun_example : erase_at full_pair 1 ≡ fault
erase_at_overrun_example =
    erase_at_overrun full_pair 1 full_pair-IsValid (omega arith) refl (omega arith)

abbrev history : List Call
history =
    reads 1
    ∷ erases 0
    ∷ inserts 0 (1 ∷ 2 ∷ [])
    ∷ pops
    ∷ pushes element
    ∷ inserts 9 element
    ∷ pushes element
    ∷ pushes element
    ∷ clears
    ∷ pops
    ∷ []

-- The last push doubles the room.
history_answers :
    vec_run (vector two_of_three) history
    ≡ (0, some (20 ∷ 21 ∷ []))
      ∷ (0, none)
      ∷ (0, none)
      ∷ (0, none)
      ∷ (0, none)
      ∷ (2, none)
      ∷ (0, none)
      ∷ (0, none)
      ∷ (0, none)
      ∷ (2, none)
      ∷ []
unfolding vec_run vec_step
history_answers = refl

history-AllAllowed : AllAllowed 2 limit (vector two_of_three) history
unfolding AllAllowed vec_step
history-AllAllowed = omega arith

calls_refine_example : calls libc two_of_three history ≡ ok (vec_run (vector two_of_three) history)
calls_refine_example =
    calls_refine libc libc-IsLawful limit libc-Grants history two_of_three two_of_three-IsValid
      history-AllAllowed

-- Compares the first bytes.
abbrev first_bytes : Bytes → Bytes → ℤ
first_bytes (x ∷ xs) (y ∷ ys) = if x == y then pos 0 else pos 1
first_bytes xs ys = pos 1

abbrev compared : Array
compared = record two_of_three { cmp = some first_bytes }

compared-IsValid : IsValid compared
compared-IsValid = omega arith

find-Stops_example :
    (stop : ℕ) × (find compared (20 ∷ 99 ∷ []) ≡ ok (into compared (2 * stop)))
    × Stops compared first_bytes (20 ∷ 99 ∷ []) compared-IsValid refl 0 stop
find-Stops_example = find-Stops compared first_bytes (20 ∷ 99 ∷ []) compared-IsValid refl

-- Two elements in the other order.
abbrev other_order : List Bytes → List Bytes
other_order (x ∷ y ∷ []) = y ∷ x ∷ []
other_order xs = xs

swapped :
    (a : Array) × (array_sort (λ f xs. other_order xs) compared ≡ ok a)
    × (elems a ≡ (20 ∷ 21 ∷ []) ∷ (10 ∷ 11 ∷ []) ∷ [])
unfolding array_sort sort_by
swapped = (
  record compared { data_block = record { addr = 1; bytes = 20 ∷ 21 ∷ 10 ∷ 11 ∷ 0 ∷ 0 ∷ [] } },
  refl,
  refl,
)
