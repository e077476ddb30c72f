-- ===== src/Bytes/Shifts.antt =====
-- The elements after a `memmove` that opens or closes a slot.
use zdia.Prelude.{
  ℕ, ◌+◌, ◌*◌, ◌≤◌, ◌≡◌, ap, ap₂, ◌∙◌, [], ◌∷◌, ◌++◌, arith, length, take, drop, length-take,
  length-drop, drop-append_length, take_all,
}
use zdia.Bytes.{Bytes, splice, slice, chunks}
use zdia.Bytes.Splices.{length-splice, take-splice}
use zdia.Bytes.Chunks.{chunks-append, chunks-append_le, chunks-take}

pub length-slice : (bs : Bytes) (off n : ℕ) → off + n ≤ length bs → length (slice bs off n) ≡ n
length-slice bs off n h = omega (arith, length-take n (drop off bs), length-drop off bs)

module _ (size i r : ℕ) (bs : Bytes) where
  -- After the write at slot `i` the slots below hold what they held.
  front_kept :
      (off : ℕ) (src : Bytes)
      → size * i ≤ off
      → off + length src ≤ length bs
      → chunks size i (take (size * i) (splice bs off src)) ≡ chunks size i bs
  front_kept off src h k =
      ap (chunks size i) (take-splice bs src (size * i) off h (omega arith))
      ∙ chunks-take size i (size * i) bs (omega arith) (omega arith)

  module _ (src : Bytes) (whole : length src ≡ size)
      (fits : size * (i + r) + size ≤ length bs) where
    moved : Bytes
    moved = splice bs (size * i + size) (slice bs (size * i) (size * r))

    length-shifted : length (slice bs (size * i) (size * r)) ≡ size * r
    length-shifted = length-slice bs (size * i) (size * r) (omega arith)

    length-moved : length moved ≡ length bs
    unfolding moved
    length-moved =
        length-splice bs (slice bs (size * i) (size * r)) (size * i + size)
          (omega (arith, length-shifted))

    behind : chunks size r (drop (size * i + length src) moved) ≡ chunks size r (drop (size * i) bs)
    unfolding moved
    behind =
        ap (chunks size r) (
          ap (λ k. drop (size * i + k) moved) whole
          ∙ drop-append_length (take (size * i + size) bs) _ (size * i + size)
              (omega (arith, length-take (size * i + size) bs)))
        ∙ chunks-append_le size r (slice bs (size * i) (size * r)) _ (omega (arith, length-shifted))
        ∙ chunks-take size r (size * r) (drop (size * i) bs) (omega arith)
            (omega (arith, length-drop (size * i) bs))

    pub chunks-insert :
        chunks size
          (i + (1 + r))
          (splice (splice bs (size * i + size) (slice bs (size * i) (size * r))) (size * i) src)
        ≡ chunks size i bs ++ (src ∷ chunks size r (drop (size * i) bs))
    unfolding moved
    chunks-insert =
        chunks-append size i (1 + r) (take (size * i) moved)
          (src ++ drop (size * i + length src) moved)
          (omega (arith, length-take (size * i) moved, length-moved))
        ∙ ap₂ ◌++◌
            (front_kept (size * i + size) (slice bs (size * i) (size * r)) (omega arith)
              (omega (arith, length-shifted)))
            (chunks-append size 1 r src (drop (size * i + length src) moved) (omega arith)
              ∙ ap₂ ◌++◌ (ap (λ t. t ∷ []) (take_all src size (omega arith))) behind)

  -- `len` bytes from slot `i + 1` on, moved to slot `i`.
  pub chunks-erase :
      (len : ℕ)
      → size * r ≤ len
      → size * i + size + len ≤ length bs
      → chunks size (i + r) (splice bs (size * i) (slice bs (size * i + size) len))
        ≡ chunks size i bs ++ chunks size r (drop (size * i + size) bs)
  chunks-erase len h fits =
      let l : length (slice bs (size * i + size) len) ≡ len =
        length-slice bs (size * i + size) len fits in
      chunks-append size i r (take (size * i) bs)
        (slice bs (size * i + size) len
          ++ drop (size * i + length (slice bs (size * i + size) len)) bs)
        (omega (arith, length-take (size * i) bs))
      ∙ ap₂ ◌++◌ (chunks-take size i (size * i) bs (omega arith) (omega arith)) (
          chunks-append_le size r (slice bs (size * i + size) len) _ (omega arith)
          ∙ chunks-take size r len (drop (size * i + size) bs) h
              (omega (arith, length-drop (size * i + size) bs)))
