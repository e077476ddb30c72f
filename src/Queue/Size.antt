-- ===== src/Queue/Size.antt =====
-- `queue_size` and `queue_new`.
use zdia.Prelude.{
  ℕ, ◌+◌, ◌*◌, ◌-◌, ◌%◌, ◌^◌, ◌≤◌, ◌<◌, ◌≡◌, ◌≢◌, refl, ap, ◌∙◌, sym, [], length, arith, leb, ◌==◌,
  ok, suc, ◌/◌, dec_lt, le→leb, sub64, mul64, false,
}
use native.Mathlib.Nat.{mod-eq_of_lt, add-mul-mod_self_left, div-add-mod, mul-mod_right}
use zdia.Memory.{Memory, IsLawful, Grants, zd_malloc}
use zdia.Queue.{Queue, sizeof_queue, new, size}
use zdia.Queue.Inv.{IsValid, contents, count, slots, length-window, count_lt, capacity_lt}

-- With memory enough, `queue_new` for a positive element size and capacity returns a valid queue
-- of that size and capacity without elements.
new-empty :
    (m : Memory) (elem_size capacity limit : ℕ)
    → IsLawful m
    → Grants m limit
    → 0 < elem_size
    → 0 < capacity
    → elem_size * capacity < limit
    → sizeof_queue < limit
    → limit ≤ 2 ^ 63
    → (q : Queue) × (new m elem_size capacity ≡ ok q)
      × IsValid q
      × (contents q ≡ [])
      × (q.capacity ≡ capacity)
      × (q.elem_size ≡ elem_size)
unfolding new zd_malloc
new-empty m elem_size capacity limit law g hs hc small room big =
    let w : mul64 elem_size capacity ≡ elem_size * capacity = omega arith in
    let (own, owned) = g.alloc sizeof_queue room in
    let (b, e) = g.alloc (elem_size * capacity) small in
    (
      record { elem_size = elem_size; capacity = capacity; head = 0; tail = 0; data_block = b },
      rw (owned, w, e) refl,
      record {
        sized = hs;
        head_in = hc;
        tail_in = hc;
        storage = (law.alloc_length (elem_size * capacity) b e).0;
        object = omega arith;
      },
      refl,
      refl,
      refl,
    )

ok-injective : {a b : ℕ} → ok a ≡ ok b → a ≡ b
ok-injective e = cc

module _ (q : Queue) (v : IsValid q) where
  capacity_pos : (q.capacity == 0) ≡ false
  capacity_pos = let h = v.head_in in ground arith

  -- `tail - head` wraps below zero when the ring has gone round.
  wrapped_size : q.tail < q.head → size q ≡ ok ((count q + (2 ^ 64 - q.capacity)) % q.capacity)
  unfolding size
  wrapped_size h =
      let o = v.object in
      let c : (leb q.head q.tail) ≡ false = ground arith in
      rw (capacity_pos, c)
        (ap (λ n. ok (n % q.capacity)) (omega (arith, v.head_in, capacity_lt q v)))

  straight_size : q.head ≤ q.tail → size q ≡ ok (count q)
  unfolding size
  straight_size h =
      let s = capacity_lt q v in
      let w : sub64 q.tail q.head ≡ q.tail - q.head = omega (arith, v.tail_in) in
      rw (capacity_pos, w, le→leb q.head q.tail h) (ap ok (mod-eq_of_lt (omega (arith, v.tail_in))))

  -- On a valid queue whose capacity divides 2^64, as the 1024 of `worker_new` does, `queue_size`
  -- returns the number of elements.
  pub size-length-contents : (k : ℕ) → q.capacity * k ≡ 2 ^ 64 → size q ≡ ok (length (contents q))
  size-length-contents k e =
      rw (length-window q.capacity (slots q) q.head (count q)) (elim (dec_lt q.tail q.head) [
        | yes h ↦
            wrapped_size h
            ∙ ap ok (
                ap (λ n. (count q + n) % q.capacity) divided
                ∙ add-mul-mod_self_left (count q) q.capacity (k - 1)
                ∙ mod-eq_of_lt (count_lt q v))
        | no h ↦ straight_size (omega arith)
      ])
    where
      k_pos : k ≡ suc (k - 1)
      k_pos = elim (dec_lt 0 k) [ yes h ↦ omega arith | no h ↦ absurd (none_at_zero (omega arith)) ]
        where
          none_at_zero : k ≡ 0 → ⊥
          none_at_zero z = omega (arith, ap (λ n. q.capacity * n) z)

      divided : 2 ^ 64 - q.capacity ≡ q.capacity * (k - 1)
      divided = omega (arith, ap (λ n. q.capacity * n) k_pos)

  -- On a valid queue that has gone round the end and whose capacity does not divide 2^64,
  -- `queue_size` does not return the number of elements.
  pub size_wrong : q.tail < q.head → 2 ^ 64 % q.capacity ≢ 0 → size q ≢ ok (length (contents q))
  size_wrong h r e =
      r (ap (λ n. n % q.capacity) factor ∙ mul-mod_right q.capacity (y / q.capacity + 1))
    where
      y : ℕ
      y = count q + (2 ^ 64 - q.capacity)

      same : y % q.capacity ≡ count q
      same =
          ok-injective
            (sym (wrapped_size h) ∙ e ∙ ap ok (length-window q.capacity (slots q) q.head (count q)))

      factor : 2 ^ 64 ≡ q.capacity * (y / q.capacity + 1)
      factor = omega (arith, div-add-mod y q.capacity, same, capacity_lt q v)
