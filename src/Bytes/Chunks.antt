-- ===== src/Bytes/Chunks.antt =====
-- Laws of `chunks`.
use zdia.Prelude.{
  ℕ, zero, suc, ◌+◌, ◌*◌, ◌≤◌, ◌<◌, ◌≡◌, refl, sym, ap, ap₂, ◌∙◌, [], ◌∷◌, ◌++◌, some, arith,
  length, take, drop, get_elem?, ◌-◌, set, take_all, set-eq-append, length-take, length-drop,
  take-append_length, take-append_le, drop-append_le, take-append-drop, drop-drop,
}
use zdia.Bytes.{Bytes, splice, slice, chunks}

module _ (size : ℕ) where
  pub length-chunks : (n : ℕ) (bs : Bytes) → length (chunks size n bs) ≡ n
  length-chunks zero bs = refl
  length-chunks (suc n) bs = ap suc (length-chunks n (drop size bs))

  -- The elements of a concatenation whose first part has room for whole elements.
  pub chunks-append :
      (m n : ℕ) (xs ys : Bytes)
      → length xs ≡ size * m
      → chunks size (m + n) (xs ++ ys) ≡ chunks size m xs ++ chunks size n ys
  chunks-append zero n [] ys h = ap (λ k. chunks size k ys) (omega arith)
  chunks-append zero n (x ∷ xs) ys h = absurd (omega arith)
  chunks-append (suc m) n xs ys h =
      let e : suc m + n ≡ suc (m + n) = omega arith in
      rw e (
        ap₂ ◌∷◌ (take-append_le size xs ys (omega arith)) (
          ap (chunks size (m + n)) (drop-append_le size xs ys (omega arith))
          ∙ chunks-append m n (drop size xs) ys (omega (arith, length-drop size xs))))

  -- The elements lie in the first `size * n` bytes.
  pub chunks-append_le :
      (n : ℕ) (xs ys : Bytes) → size * n ≤ length xs → chunks size n (xs ++ ys) ≡ chunks size n xs
  chunks-append_le zero xs ys h = refl
  chunks-append_le (suc n) xs ys h = ap₂ ◌∷◌ (take-append_le size xs ys (omega arith)) (
      ap (chunks size n) (drop-append_le size xs ys (omega arith))
      ∙ chunks-append_le n (drop size xs) ys (omega (arith, length-drop size xs)))

  pub chunks-take :
      (n k : ℕ) (bs : Bytes)
      → size * n ≤ k
      → k ≤ length bs
      → chunks size n (take k bs) ≡ chunks size n bs
  chunks-take n k bs h l =
      sym (chunks-append_le n (take k bs) (drop k bs) (omega (arith, length-take k bs)))
      ∙ ap (chunks size n) (take-append-drop k bs)

  pub chunks_one : (e rest : Bytes) → length e ≡ size → chunks size 1 (e ++ rest) ≡ e ∷ []
  chunks_one e rest h = ap (λ t. t ∷ []) (take-append_length e rest size h)

  -- A write into slot `n` adds an element behind the first `n`.
  pub chunks-splice_snoc :
      (n : ℕ) (bs e : Bytes)
      → length e ≡ size
      → size * n ≤ length bs
      → chunks size (n + 1) (splice bs (size * n) e) ≡ chunks size n bs ++ (e ∷ [])
  chunks-splice_snoc n bs e h l =
      chunks-append n 1 (take (size * n) bs) (e ++ drop (size * n + length e) bs)
        (omega (arith, length-take (size * n) bs))
      ∙ ap₂ ◌++◌ (chunks-take n (size * n) bs (omega arith) l) (chunks_one e _ h)

  -- The element in slot `i`.
  pub get_elem?-chunks :
      (n i : ℕ) (bs : Bytes)
      → i < n
      → get_elem? (chunks size n bs) i ≡ some (slice bs (size * i) size)
  get_elem?-chunks zero i bs h = absurd (omega arith)
  get_elem?-chunks (suc n) zero bs h = let e : size * zero ≡ 0 = omega arith in rw e refl
  get_elem?-chunks (suc n) (suc i) bs h =
      get_elem?-chunks n i (drop size bs) (omega arith)
      ∙ ap (λ t. some (take size t))
          (drop-drop (size * i) size bs ∙ ap (λ k. drop k bs) (omega arith))

  -- The elements from slot `i` on.
  pub drop-chunks :
      (i n : ℕ) (bs : Bytes) → drop i (chunks size (i + n) bs) ≡ chunks size n (drop (size * i) bs)
  drop-chunks zero n bs =
      let e : zero + n ≡ n = omega arith in let d : size * zero ≡ 0 = omega arith in rw (e, d) refl
  drop-chunks (suc i) n bs =
      let e : suc i + n ≡ suc (i + n) = omega arith in
      rw e (
        drop-chunks i n (drop size bs)
        ∙ ap (chunks size n) (drop-drop (size * i) size bs ∙ ap (λ k. drop k bs) (omega arith)))

  pub take-chunks : (i n : ℕ) (bs : Bytes) → take i (chunks size (i + n) bs) ≡ chunks size i bs
  take-chunks zero n bs = refl
  take-chunks (suc i) n bs =
      let e : suc i + n ≡ suc (i + n) = omega arith in
      rw e (ap (λ t. take size bs ∷ t) (take-chunks i n (drop size bs)))

  -- A write into slot `i` sets that element and no other.
  pub chunks-splice-set :
      (n i : ℕ) (bs e : Bytes)
      → length e ≡ size
      → i < n
      → size * n ≤ length bs
      → chunks size n (splice bs (size * i) e) ≡ set (chunks size n bs) i e
  chunks-splice-set n i bs e h lt l =
      ap (λ k. chunks size k (splice bs (size * i) e)) count
      ∙ chunks-append i (1 + r) (take (size * i) bs) (e ++ drop (size * i + length e) bs)
          (omega (arith, length-take (size * i) bs, room))
      ∙ ap₂ ◌++◌ front (
          chunks-append 1 r e (drop (size * i + length e) bs) (omega arith)
          ∙ ap₂ (λ x xs. (x ∷ []) ++ xs) (take_all e size (omega arith)) back)
      ∙ sym (set-eq-append (chunks size n bs) i e (omega (arith, length-chunks n bs)))
    where
      r : ℕ
      r = n - i - 1

      room : size * i + size ≤ size * n
      room = grind arith

      count : n ≡ i + (1 + r)
      count = omega arith

      front : chunks size i (take (size * i) bs) ≡ take i (chunks size n bs)
      front =
          chunks-take i (size * i) bs (omega arith) (omega (arith, room))
          ∙ sym (take-chunks i (1 + r) bs)
          ∙ ap (λ k. take i (chunks size k bs)) (sym count)

      back : chunks size r (drop (size * i + length e) bs) ≡ drop (suc i) (chunks size n bs)
      back =
          ap (λ k. chunks size r (drop k bs)) (omega arith)
          ∙ sym (drop-chunks (suc i) r bs)
          ∙ ap (λ k. drop (suc i) (chunks size k bs)) (omega arith)
