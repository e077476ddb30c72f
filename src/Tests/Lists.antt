-- ===== src/Tests/Lists.antt =====
-- list.c at lists of one node and of two.
use zdia.Prelude.{List, ℕ, ◌≡◌, refl, arith, [], ◌∷◌, ok, ◌==◌, if◌then◌else◌}
use zdia.Dlist.{Links}
use zdia.Dlist.Rings.{Ring}
use zdia.Dlist.Refine.{
  Call, adds_tail, adds_head, deletes, asks_empty, AllAllowed, calls, seq_run, ring_refines,
}

abbrev other : ℕ → ℕ
other q = if q == 1 then 2 else 1

-- The head is at 1, the node at 2.
abbrev one_node : Links
one_node = record { next = other; prev = other }

one_node-Ring : Ring one_node 1 (2 ∷ [])
one_node-Ring = record {
  chain = (refl, refl, (refl, refl));
  distinct = ((((λ e. omega arith), tt)), (tt, tt));
  nodes = ((λ e. omega arith), ((λ e. omega arith), tt));
}

-- The nodes 2 and 3.
abbrev two_nodes : Links
two_nodes = record {
  next = λ q. if q == 1 then 2 else if q == 2 then 3 else 1;
  prev = λ q. if q == 1 then 3 else if q == 2 then 1 else 2;
}

two_nodes-Ring : Ring two_nodes 1 (2 ∷ 3 ∷ [])
two_nodes-Ring = record {
  chain = (refl, refl, (refl, refl, (refl, refl)));
  distinct = (((λ e. omega arith), ((λ e. omega arith), tt)), (((λ e. omega arith), tt), (tt, tt)));
  nodes = ((λ e. omega arith), ((λ e. omega arith), ((λ e. omega arith), tt)));
}

abbrev history : List Call
history =
    adds_tail 3 ∷ adds_head 4 ∷ deletes 2 ∷ asks_empty ∷ deletes 3 ∷ deletes 4 ∷ asks_empty ∷ []

history-AllAllowed : AllAllowed 1 (2 ∷ []) history
unfolding AllAllowed
history-AllAllowed = omega arith

ring_refines_example :
    (s' : Links) × (calls one_node 1 history ≡ ok ((seq_run (2 ∷ []) history).0, s'))
    × Ring s' 1 (seq_run (2 ∷ []) history).1
ring_refines_example = ring_refines history one_node 1 (2 ∷ []) one_node-Ring history-AllAllowed
