-- ===== src/Bytes/Splices.antt =====
-- Laws of `splice`.
use zdia.Prelude.{
  ℕ, ◌+◌, ◌≤◌, ◌≡◌, refl, ap, ◌∙◌, ◌++◌, arith, length, take, drop, length-append, length-take,
  length-drop, take-append_length, drop-append_length, take-append_le, drop-append_le, drop-drop,
  take-take, drop-take, ap₂,
}
use zdia.Bytes.{Bytes, splice}

pub length-splice :
    (bs src : Bytes) (off : ℕ)
    → off + length src ≤ length bs
    → length (splice bs off src) ≡ length bs
length-splice bs src off h = omega (
  arith,
  length-append (take off bs) (src ++ drop (off + length src) bs),
  length-append src (drop (off + length src) bs),
  length-take off bs,
  length-drop (off + length src) bs,
)

-- Bytes in front of the write are kept.
pub take-splice :
    (bs src : Bytes) (n off : ℕ)
    → n ≤ off
    → off ≤ length bs
    → take n (splice bs off src) ≡ take n bs
take-splice bs src n off h k =
    take-append_le n (take off bs) _ (omega (arith, length-take off bs)) ∙ take-take n off bs h

-- A write past the first `n` bytes is a write into the rest.
pub drop-splice :
    (bs src : Bytes) (n off : ℕ)
    → n + off ≤ length bs
    → drop n (splice bs (n + off) src) ≡ splice (drop n bs) off src
drop-splice bs src n off h =
    drop-append_le n (take (n + off) bs) _ (omega (arith, length-take (n + off) bs))
    ∙ ap₂ ◌++◌ (drop-take n off bs) (ap (λ t. src ++ t) rest)
  where
    rest : drop (n + off + length src) bs ≡ drop (off + length src) (drop n bs)
    rest = rw drop-drop (ap (λ k. drop k bs) (omega arith))

-- What is read back is what was written.
pub slice-splice :
    (bs src : Bytes) (off : ℕ)
    → off ≤ length bs
    → take (length src) (drop off (splice bs off src)) ≡ src
slice-splice bs src off h =
    rw
      (drop-append_length (take off bs) (src ++ drop (off + length src) bs) off
        (omega (arith, length-take off bs)))
      (take-append_length src _ (length src) refl)
