-- ===== src/Tests/Queues.antt =====
-- queue.c at a ring of three slots of one byte that has gone round its end.
use zdia.Prelude.{◌^◌, ◌≡◌, ◌≢◌, refl, none, some, List, [], ◌∷◌, arith, ok, length}
use zdia.Queue.{Queue, size}
use zdia.Queue.Fifo.{Call, pushes, pops, fifo_run}
use zdia.Queue.Inv.{IsValid, contents}
use zdia.Queue.Refine.{run, run_refines}
use zdia.Queue.Size.{size-length-contents, size_wrong}

abbrev wrapped : Queue
wrapped = record {
  elem_size = 1;
  capacity = 3;
  head = 2;
  tail = 1;
  data_block = record { addr = 1; bytes = 8 ∷ 0 ∷ 7 ∷ [] };
}

abbrev four_slots : Queue
four_slots = record {
  elem_size = 1;
  capacity = 4;
  head = 3;
  tail = 1;
  data_block = record { addr = 1; bytes = 8 ∷ 0 ∷ 0 ∷ 7 ∷ [] };
}

wrapped-IsValid : IsValid wrapped
wrapped-IsValid = omega arith

four_slots-IsValid : IsValid four_slots
four_slots-IsValid = omega arith

abbrev script : List Call
script = pushes (9 ∷ []) ∷ pops ∷ pushes (9 ∷ []) ∷ pops ∷ pops ∷ pops ∷ []

contents-wrapped : contents wrapped ≡ (7 ∷ []) ∷ (8 ∷ []) ∷ []
contents-wrapped = refl

run-wrapped :
    run wrapped script
    ≡ ok (
        (22, none)
        ∷ (0, some (7 ∷ []))
        ∷ (0, none)
        ∷ (0, some (8 ∷ []))
        ∷ (0, some (9 ∷ []))
        ∷ (2, none)
        ∷ [])
unfolding run
run-wrapped = refl

run_refines_example : run wrapped script ≡ ok (fifo_run 2 (contents wrapped) script)
run_refines_example = run_refines script wrapped wrapped-IsValid (omega arith)

size-length-contents_example : size four_slots ≡ ok (length (contents four_slots))
size-length-contents_example = size-length-contents four_slots four_slots-IsValid (2 ^ 62) refl

size_wrong_example : size wrapped ≢ ok (length (contents wrapped))
size_wrong_example = size_wrong wrapped wrapped-IsValid (omega arith) (omega arith)
