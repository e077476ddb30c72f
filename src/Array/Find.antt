-- ===== src/Array/Find.antt =====
-- `array_find` against the list of elements.
use zdia.Prelude.{
  ℕ, zero, suc, ◌+◌, ◌*◌, ◌≤◌, ◌<◌, ◌≡◌, refl, sym, ap, ◌∙◌, inl, inr, Bool-cases, true, false,
  some, ok, arith, get_elem?, gt→leb, subst, if◌then◌else◌, ℕ_discrete, is_zero, mul64, ℤ, eq→==,
  ne→==,
}
use zdia.Bytes.{Bytes}
use zdia.Array.{Array, elems, into, at, deref, begin, end, next, call_cmp, find_loop, find}
use zdia.Array.Inv.{IsValid, slot_in, mul_mono}
use zdia.Array.Push.{offset_no_wrap, at_lem}

some_injective : {A : Type 0} {x y : A} → some x ≡ some y → x ≡ y
some_injective e = cc

module _ (a : Array) (f : Bytes → Bytes → ℤ) (elem : Bytes) (v : IsValid a)
    (set : a.cmp ≡ some f) where
  -- From slot `k` on, `stop` is the first slot whose element compares equal, or the size.
  pub record Stops (k stop : ℕ) : Type 0 where
    pub within : stop ≤ a.size
    pub skips :
        (j : ℕ) (x : Bytes)
        → k ≤ j
        → j < stop
        → get_elem? (elems a) j ≡ some x
        → is_zero (f elem x) ≡ false
    pub hits :
        (x : Bytes) → stop < a.size → get_elem? (elems a) stop ≡ some x → is_zero (f elem x) ≡ true

  at_slot : (k : ℕ) → k < a.size → at a k ≡ some (into a (a.elem_size * k))
  unfolding at
  at_slot k h = rw (gt→leb a.size k h, offset_no_wrap a k v (omega (arith, v.size_le))) refl

  -- The element in slot `k`, as the loop reads it.
  in_slot :
      (k : ℕ)
      → k < a.size
      → (x : Bytes) × (deref a (into a (a.elem_size * k)) ≡ ok x) × (get_elem? (elems a) k ≡ some x)
  in_slot k h =
      let (p, at_k, x, read_x, here) = (at_lem a k v).0 h in
      (x, subst (λ p. deref a p ≡ ok x) (some_injective (sym at_k ∙ at_slot k h)) read_x, here)

  end_offset : mul64 a.elem_size a.size ≡ a.elem_size * a.size
  end_offset = offset_no_wrap a a.size v v.size_le

  at_end :
      (fuel : ℕ)
      → find_loop (suc fuel) a elem (into a (a.elem_size * a.size))
        ≡ ok (into a (a.elem_size * a.size))
  unfolding find_loop end
  at_end fuel =
      rw
        (
          end_offset,
          eq→== a.data_block.addr a.data_block.addr refl,
          eq→== (a.elem_size * a.size) (a.elem_size * a.size) refl,
        )
        refl

  before_end : (k : ℕ) → k < a.size → a.elem_size * k + a.elem_size ≤ a.elem_size * a.size
  before_end k h = slot_in a.elem_size k a.size h

  next_slot :
      (k : ℕ) → k < a.size → next a (into a (a.elem_size * k)) ≡ into a (a.elem_size * suc k)
  unfolding next
  next_slot k h =
      let o = v.object in
      ap (into a) (omega (arith, before_end k h, mul_mono a.elem_size a.size a.capacity v.size_le))

  round :
      (fuel k : ℕ) (x : Bytes)
      → k < a.size
      → deref a (into a (a.elem_size * k)) ≡ ok x
      → find_loop (suc fuel) a elem (into a (a.elem_size * k)) ≡ (
          if is_zero (f elem x)
          then ok (into a (a.elem_size * k))
          else find_loop fuel a elem (into a (a.elem_size * suc k)))
  unfolding find_loop end call_cmp
  round fuel k x h read_x =
      let z = v.sized in
      rw
        (
          end_offset,
          read_x,
          set,
          next_slot k h,
          eq→== a.data_block.addr a.data_block.addr refl,
          ne→== (a.elem_size * k) (a.elem_size * a.size) (λ e. omega (arith, before_end k h)),
        )
        refl

  hit :
      (k : ℕ) (x : Bytes)
      → k < a.size
      → get_elem? (elems a) k ≡ some x
      → is_zero (f elem x) ≡ true
      → Stops k k
  hit k x h here z = record {
    within = omega arith;
    skips = λ j y lo hi g. absurd (omega arith);
    hits = λ y lo g. subst (λ w. is_zero (f elem w) ≡ true) (some_injective (sym here ∙ g)) z;
  }

  miss :
      (k stop : ℕ) (x : Bytes)
      → get_elem? (elems a) k ≡ some x
      → is_zero (f elem x) ≡ false
      → Stops (suc k) stop
      → Stops k stop
  miss k stop x here nz s = record {
    within = s.within;
    skips = λ j y lo hi g. elim (ℕ_discrete k j) [
      | yes e ↦
          subst (λ w. is_zero (f elem w) ≡ false)
            (some_injective (sym here ∙ ap (get_elem? (elems a)) e ∙ g)) nz
      | no ne ↦ s.skips j y (omega arith) hi g
    ];
    hits = s.hits;
  }

  loop_from :
      (r k : ℕ)
      → k + r ≡ a.size
      → (stop : ℕ) × (find_loop (suc r) a elem (into a (a.elem_size * k))
          ≡ ok (into a (a.elem_size * stop)))
        × Stops k stop
  loop_from zero k e =
      let full : a.size ≡ k = omega arith in
      (
        k,
        subst (λ n. find_loop 1 a elem (into a (a.elem_size * n)) ≡ ok (into a (a.elem_size * n)))
            full (at_end 0),
        record {
          within = omega arith;
          skips = λ j y lo hi g. absurd (omega arith);
          hits = λ y lo g. absurd (omega arith);
        },
      )
  loop_from (suc r) k e =
      let (x, read_x, here) = in_slot k (omega arith) in
      let (stop, ran, s) = loop_from r (suc k) (omega arith) in
      elim (Bool-cases (is_zero (f elem x))) [
        | inl z ↦
            (k, rw (round (suc r) k x (omega arith) read_x, z) refl, hit k x (omega arith) here z)
        | inr nz ↦
            (stop, rw (round (suc r) k x (omega arith) read_x, nz) ran, miss k stop x here nz s)
      ]

  -- On a valid array with a comparison, `array_find` ends within its fuel, a round for each element
  -- and one more, without a fault. The pointer that it returns is to the first element that
  -- compares equal to the one it looks for, or, if there is none, `array_end`.
  pub find-Stops : (stop : ℕ) × (find a elem ≡ ok (into a (a.elem_size * stop))) × Stops 0 stop
  unfolding find begin
  find-Stops =
      let (stop, ran, s) = loop_from a.size 0 (omega arith) in
      (
        stop,
        subst (λ n. find_loop (suc a.size) a elem (into a n) ≡ ok (into a (a.elem_size * stop)))
            (omega arith) ran,
        s,
      )
