-- ===== src/Dict/Build/Codecs.antt =====
-- dict.c: the loop of `dict_build` over the parents of a type.
use zdia.Prelude.{
  ℕ, zero, suc, ◌<◌, ◌≡◌, refl, true, false, Option, none, some, List, arith, ok, out_of_fuel,
  get_elem?,
}
use zdia.Dict.Build.{is_unknown, find_codec}
use zdia.Dict.Types.{AvpType, Codec}

-- The chain of parents from `curr` comes to an end after `n` steps, with a codec or a null pointer.
pub data ChainEnds (types : List AvpType) : Option ℕ → ℕ → Option Codec → Type 0 where
  no_parent : ChainEnds types none 0 none
  has_codec :
      (slot : ℕ) (t : AvpType)
      → get_elem? types slot ≡ some t
      → is_unknown t.codec ≡ false
      → ChainEnds types (some slot) 0 (some t.codec)
  to_parent :
      {n : ℕ} {c : Option Codec} (slot : ℕ) (t : AvpType)
      → get_elem? types slot ≡ some t
      → is_unknown t.codec ≡ true
      → ChainEnds types t.parent n c
      → ChainEnds types (some slot) (suc n) c

-- If the chain of parents from a type ends after `n` steps, the loop of `dict_build` that follows it
-- ends too, in at most `n` + 1 rounds, with the codec of the first type on the chain that has one.
pub find_codec-ChainEnds :
    (types : List AvpType) (curr : Option ℕ) (n : ℕ) (c : Option Codec) (fuel : ℕ)
    → ChainEnds types curr n c
    → n < fuel
    → find_codec fuel types curr ≡ ok c
unfolding find_codec
find_codec-ChainEnds types curr n c zero e h = absurd (omega arith)
find_codec-ChainEnds types _ _ _ (suc fuel) no_parent h = refl
find_codec-ChainEnds types _ _ _ (suc fuel) (has_codec slot t g k) h = rw (g, k) refl
find_codec-ChainEnds types _ _ c (suc fuel) (to_parent {n = n'} slot t g k rest) h =
    rw (g, k) (find_codec-ChainEnds types t.parent n' c fuel rest (omega arith))

-- A type on a ring of parents without a codec: each names the next, and the last the first.
pub data Ring (types : List AvpType) (P : ℕ → Type 0) : Type 0 where
  ring :
      ((slot : ℕ)
        → P slot
        → (t : AvpType) × (next : ℕ) × (get_elem? types slot ≡ some t)
          × (is_unknown t.codec ≡ true)
          × (t.parent ≡ some next)
          × P next)
      → Ring types P

-- From a slot in a set of types that have no codec, and whose parents are in the set, the loop never
-- ends: however many rounds it has, they are used up.
pub find_codec-ring :
    (types : List AvpType) (P : ℕ → Type 0)
    → Ring types P
    → (fuel slot : ℕ) → P slot
    → find_codec fuel types (some slot) ≡ out_of_fuel
unfolding find_codec
find_codec-ring types P r zero slot p = refl
find_codec-ring types P (ring step) (suc fuel) slot p =
    let (t, next, g, k, e, p') = step slot p in
    rw (g, k, e) (find_codec-ring types P (ring step) fuel next p')
