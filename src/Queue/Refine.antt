-- ===== src/Queue/Refine.antt =====
-- A valid queue behaves as the bounded FIFO of the elements that it holds.
use zdia.Prelude.{
  ℕ, zero, suc, ◌+◌, ◌*◌, ◌-◌, ◌≤◌, ◌<◌, ◌≡◌, refl, ap, ap₂, ◌∙◌, sym, List, [], ◌∷◌, ◌++◌, length,
  get_or, set, arith, leb, if◌then◌else◌, ◌==◌, take, take_all, add64, ◌%◌, Option, none, some, Run,
  ok, ◌>>=◌, get_or-set_self, get_or-set_ne, get_or_of_get_elem?, Bool-cases, false, inl, inr,
  le→leb, ==_iff, mul64, length-take,
}
use native.Mathlib.Nat.{mod_self, mod-eq_of_lt}
use zdia.Bytes.{Bytes, splice, slice}
use zdia.Bytes.Splices.{length-splice}
use zdia.Bytes.Chunks.{chunks-splice-set, get_elem?-chunks, length-chunks}
use zdia.Array.Inv.{slot_in}
use zdia.Array.Push.{read_elem}
use zdia.Queue.{Queue, einval, enoent, advance, empty, full, push, pop}
use zdia.Queue.Fifo.{Call, pushes, pops, Answer, fifo_push, fifo_pop, fifo_run}
use zdia.Queue.Inv.{
  IsValid, slots, after, place, window, count, contents, length-window, count_lt, place-count,
  place-after, place-ne, after_lt, capacity_lt,
}

-- Writing the place just past a window extends it by that element.
window-set :
    (cap : ℕ) (xs : List Bytes) (x : Bytes) (h n i : ℕ)
    → length xs ≡ cap
    → h < cap
    → n < cap
    → i ≡ place cap h n
    → window cap (set xs i x) h (suc n) ≡ window cap xs h n ++ (x ∷ [])
window-set cap xs x h zero i l hh hn e =
    ap (λ t. t ∷ [])
      (ap (λ k. get_or (set xs k x) h []) at_head ∙ get_or-set_self xs h x [] (omega arith))
  where
    at_head : i ≡ h
    at_head = ground arith
window-set cap xs x h (suc n) i l hh hn e =
    ap₂ ◌∷◌ (get_or-set_ne xs i h x [] (λ p. place-ne cap h n hh hn (sym e ∙ p))) (
      window-set cap xs x (after cap h) n i l (after_lt cap h hh) (omega arith)
        (e ∙ sym (place-after cap h n hh hn)))

pub next-after : (cap i : ℕ) → i < cap → (i + 1) % cap ≡ after cap i
next-after cap i h = elim (Bool-cases (i + 1 == cap)) [
  | inl e ↦ rw (e, (==_iff _ _).0 e) (mod_self cap)
  | inr e ↦ rw e (mod-eq_of_lt (ground arith))
]

module _ (q : Queue) (v : IsValid q) where
  advance-after : (i : ℕ) → i < q.capacity → advance q.capacity i ≡ after q.capacity i
  advance-after i h = let s = capacity_lt q v in ground arith

  -- `queue_full` does not fault, and says whether all slots but one are taken.
  pub full_lem : full q ≡ ok (count q == q.capacity - 1)
  unfolding full
  full_lem =
      let s = capacity_lt q v in
      let w : add64 q.tail 1 ≡ q.tail + 1 = omega (arith, v.tail_in) in
      let z : (q.capacity == 0) ≡ false = ground (arith, v.tail_in) in
      rw (w, z, next-after q.capacity q.tail v.tail_in) (ap ok same)
    where
      same : (after q.capacity q.tail == q.head) ≡ (count q == q.capacity - 1)
      same = ground arith

  -- `queue_empty` says whether there is no element.
  pub empty_lem : empty q ≡ (length (contents q) == 0)
  unfolding empty
  empty_lem = rw (length-window q.capacity (slots q) q.head (count q)) same
    where
      same : (q.head == q.tail) ≡ (count q == 0)
      same = ground arith

  push_fits : q.elem_size * q.tail + q.elem_size ≤ length q.data_block.bytes
  push_fits = omega (arith, v.storage, slot_in q.elem_size q.tail q.capacity v.tail_in)

  pop_fits : q.elem_size * q.head + q.elem_size ≤ length q.data_block.bytes
  pop_fits = omega (arith, v.storage, slot_in q.elem_size q.head q.capacity v.head_in)

  module _ (e : Bytes) (whole : q.elem_size ≤ length e) where
    stored : Queue
    stored = record q {
      data_block = record {
        addr = q.data_block.addr;
        bytes = splice q.data_block.bytes (q.elem_size * q.tail) (take q.elem_size e);
      };
      tail = after q.capacity q.tail;
    }

    length-src : length (take q.elem_size e) ≡ q.elem_size
    length-src = omega (arith, length-take q.elem_size e)

    push_step : push q e ≡ (if count q == q.capacity - 1 then ok (einval, q) else ok (0, stored))
    unfolding push stored
    push_step =
        let w : mul64 q.elem_size q.tail ≡ q.elem_size * q.tail =
          omega (arith, push_fits, v.storage, v.object) in
        let f : q.elem_size * q.tail + length (take q.elem_size e) ≤ length q.data_block.bytes =
          omega (arith, push_fits, length-src) in
        rw
          (full_lem, read_elem e q.elem_size whole, w, le→leb _ _ f, advance-after q.tail v.tail_in)
          refl

    stored-IsValid : IsValid stored
    unfolding stored
    stored-IsValid = record {
      sized = v.sized;
      head_in = v.head_in;
      tail_in = after_lt q.capacity q.tail v.tail_in;
      storage =
          length-splice q.data_block.bytes (take q.elem_size e) (q.elem_size * q.tail)
            (omega (arith, push_fits, length-src))
          ∙ v.storage;
      object = v.object;
    }

    stored-contents :
        (count q ≡ q.capacity - 1 → ⊥) → contents stored ≡ contents q ++ (take q.elem_size e ∷ [])
    unfolding stored
    stored-contents room =
        ap₂ (λ xs n. window q.capacity xs q.head n)
          (chunks-splice-set q.elem_size q.capacity q.tail q.data_block.bytes (take q.elem_size e)
            length-src v.tail_in (omega (arith, v.storage)))
          more
        ∙ window-set q.capacity (slots q) (take q.elem_size e) q.head (count q) q.tail
            (length-chunks q.elem_size q.capacity q.data_block.bytes) v.head_in (count_lt q v)
            (sym (place-count q v))
      where
        more :
            (if leb q.head (after q.capacity q.tail)
              then after q.capacity q.tail - q.head
              else after q.capacity q.tail + q.capacity - q.head)
            ≡ suc (count q)
        more = ground arith

    stored_same : (stored.capacity ≡ q.capacity) × (stored.elem_size ≡ q.elem_size)
    unfolding stored
    stored_same = (refl, refl)

    -- `queue_push` answers and acts as the bounded FIFO does, and keeps the invariant.
    pub push_refines :
        (s : ℕ) × (r : Queue) × (push q e ≡ ok (s, r))
        × IsValid r
        × (r.capacity ≡ q.capacity)
        × (r.elem_size ≡ q.elem_size)
        × ((s, contents r) ≡ fifo_push (q.capacity - 1) (contents q) (take q.elem_size e))
    unfolding fifo_push
    push_refines = elim (Bool-cases (count q == q.capacity - 1)) [
      | inl f ↦ (
        einval,
        q,
        rw (push_step, f) refl,
        v,
        refl,
        refl,
        rw (length-window q.capacity (slots q) q.head (count q), f) refl,
      )
      | inr f ↦ (
        0,
        stored,
        rw (push_step, f) refl,
        stored-IsValid,
        stored_same.0,
        stored_same.1,
        rw (length-window q.capacity (slots q) q.head (count q), f)
            (ap (λ c. (0, c)) (stored-contents (ground arith))),
      )
    ]

  popped : Queue
  popped = record q { head = after q.capacity q.head }

  popped-IsValid : IsValid popped
  unfolding popped
  popped-IsValid = record {
    sized = v.sized;
    head_in = after_lt q.capacity q.head v.head_in;
    tail_in = v.tail_in;
    storage = v.storage;
    object = v.object;
  }

  head_elem : Bytes
  head_elem = slice q.data_block.bytes (q.elem_size * q.head) q.elem_size

  pop_step : pop q ≡ (if count q == 0 then ok (enoent, none, q) else ok (0, some head_elem, popped))
  unfolding pop popped head_elem
  pop_step =
      let w : mul64 q.elem_size q.head ≡ q.elem_size * q.head =
        omega (arith, pop_fits, v.storage, v.object) in
      rw
        (
          empty_lem,
          length-window q.capacity (slots q) q.head (count q),
          w,
          le→leb _ _ pop_fits,
          advance-after q.head v.head_in,
        )
        refl

  popped-contents : (count q ≡ 0 → ⊥) → contents q ≡ head_elem ∷ contents popped
  unfolding popped head_elem
  popped-contents some_left =
      ap (window q.capacity (slots q) q.head) less
      ∙ ap (λ x. x ∷ window q.capacity (slots q) (after q.capacity q.head) (count popped))
          (get_or_of_get_elem? (slots q) q.head []
            (get_elem?-chunks q.elem_size q.capacity q.head q.data_block.bytes v.head_in))
    where
      less : count q ≡ suc (count popped)
      less = ground arith

  popped_same : (popped.capacity ≡ q.capacity) × (popped.elem_size ≡ q.elem_size)
  unfolding popped
  popped_same = (refl, refl)

  -- `queue_pop` answers and acts as the bounded FIFO does, and keeps the invariant.
  pub pop_refines :
      (s : ℕ) × (out : Option Bytes) × (r : Queue) × (pop q ≡ ok (s, out, r))
      × IsValid r
      × (r.capacity ≡ q.capacity)
      × (r.elem_size ≡ q.elem_size)
      × ((s, out, contents r) ≡ fifo_pop (contents q))
  unfolding fifo_pop
  pop_refines = elim (Bool-cases (count q == 0)) [
    | inl e ↦ (enoent, none, q, rw (pop_step, e) refl, v, refl, refl, rw ((==_iff _ _).0 e) refl)
    | inr e ↦ (
      0,
      some head_elem,
      popped,
      rw (pop_step, e) refl,
      popped-IsValid,
      popped_same.0,
      popped_same.1,
      rw (popped-contents (ground arith)) refl,
    )
  ]

-- A history of calls by one client after another.
unfoldable pub run : Queue → List Call → Run (List Answer)
unfolding push pop
run q [] = ok []
run q (pushes x ∷ cs) = do (s, r) ← push q x; answers ← run r cs; ok ((s, none) ∷ answers)
run q (pops ∷ cs) = do (s, out, r) ← pop q; answers ← run r cs; ok ((s, out) ∷ answers)

-- Every element pushed has the size of an element.
abbrev pub AllSized : ℕ → List Call → Type 0
AllSized size [] = Unit
AllSized size (pushes x ∷ cs) = (length x ≡ size) × AllSized size cs
AllSized size (pops ∷ cs) = AllSized size cs

-- On a valid queue, any history of pushes, each of an element of the right size, and pops runs
-- without a fault, and its answers are those of the FIFO with the queue's contents and a bound of
-- one less than the capacity.
pub run_refines :
    (cs : List Call) (q : Queue)
    → IsValid q
    → AllSized q.elem_size cs
    → run q cs ≡ ok (fifo_run (q.capacity - 1) (contents q) cs)
unfolding run fifo_run
run_refines [] q v h = refl
run_refines (pushes x ∷ cs) q v h =
    let (s, r, step, w, cap, size, same) = push_refines q v x (omega (arith, h.0)) in
    rw (step, run_refines cs r w (rw size h.1))
      (ap (λ c. ok ((s, none) ∷ fifo_run (c - 1) (contents r) cs)) cap
        ∙ ap (λ (t : ℕ × List Bytes). ok ((t.0, none) ∷ fifo_run (q.capacity - 1) t.1 cs)) same
        ∙ ap (λ y. ok (fifo_run (q.capacity - 1) (contents q) (pushes y ∷ cs)))
            (take_all x q.elem_size (omega (arith, h.0))))
run_refines (pops ∷ cs) q v h =
    let (s, out, r, step, w, cap, size, same) = pop_refines q v in
    rw (step, run_refines cs r w (rw size h))
      (ap (λ c. ok ((s, out) ∷ fifo_run (c - 1) (contents r) cs)) cap
        ∙ ap
            (λ (t : ℕ × Option Bytes × List Bytes).
              ok ((t.0, t.1) ∷ fifo_run (q.capacity - 1) t.2 cs))
            same)
