-- ===== src/Bytes.antt =====
-- Bytes of an object in memory: the reads and writes of `memcpy` and `memmove` on them, and their
-- cut into elements of one size.
pub mod Splices
pub mod Chunks
pub mod Shifts
use zdia.Prelude.{
  ℕ, zero, suc, ◌+◌, ◌≤◌, List, [], ◌∷◌, ◌++◌, length, take, drop, leb, if◌then◌else◌, Run, ok,
  fault,
}

abbrev pub Bytes : Type 0
Bytes = List ℕ

-- The `n` bytes from offset `off` on.
abbrev pub slice : Bytes → ℕ → ℕ → Bytes
slice bs off n = take n (drop off bs)

-- `bs` with the bytes from offset `off` on replaced by `src`.
abbrev pub splice : Bytes → ℕ → Bytes → Bytes
splice bs off src = take off bs ++ (src ++ drop (off + length src) bs)

-- `memcpy` from another object; an access outside the object is a fault.
abbrev pub memcpy : Bytes → ℕ → Bytes → Run Bytes
memcpy bs off src = if leb (off + length src) (length bs) then ok (splice bs off src) else fault

-- `memmove` within one object, from `src` to `dst`.
abbrev pub memmove : Bytes → (dst src n : ℕ) → Run Bytes
memmove bs dst src n =
    if leb (src + n) (length bs)
    then if leb (dst + n) (length bs) then ok (splice bs dst (slice bs src n)) else fault
    else fault

-- `memcpy` out of an object.
abbrev pub read : Bytes → ℕ → ℕ → Run Bytes
read bs off n = if leb (off + n) (length bs) then ok (slice bs off n) else fault

-- The first `n` elements of `size` bytes each.
abbrev pub chunks : ℕ → ℕ → Bytes → List Bytes
chunks size zero bs = []
chunks size (suc n) bs = take size bs ∷ chunks size n (drop size bs)
