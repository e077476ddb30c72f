-- ===== src/Array/Refine.antt =====
-- array.c: calls on an array, and the vector that the array stands for.
pub mod Changes
pub mod Whole
use zdia.Prelude.{
  ℕ, zero, suc, ◌+◌, ◌*◌, ◌≤◌, ◌≡◌, ◌⊎◌, refl, sym, ap, ap₂, subst, ◌∙◌, inl, inr, Bool-cases,
  Option, none, some, List, [], ◌∷◌, ◌++◌, length, take, drop, take_all, get_elem?, ltb, ◌==◌,
  if◌then◌else◌, Run, ok, ◌>>=◌, arith,
}
use zdia.Bytes.{Bytes}
use zdia.Bytes.Chunks.{length-chunks}
use zdia.Memory.{Memory, IsLawful, Grants}
use zdia.Array.{
  Array, Ptr, enoent, elems, push_back, pop_back, insert_at, erase_at, at, deref, clear,
}
use zdia.Array.Inv.{IsValid}
use zdia.Array.Push.{Pushed, push_back_snoc, pop_back_lem, at_lem}
use zdia.Array.Insert.{insert_at_lem, insert_at_past}
use zdia.Array.Erase.{erase_at_lem, erase_at_past}
use zdia.Array.Vector.{
  Call, pushes, pops, inserts, erases, reads, clears, Vector, Answer, vec_step, vec_run,
  room_for_push, Allowed, AllAllowed,
}

abbrev pub vector : Array → Vector
vector a = record { capacity = a.capacity; items = elems a }

-- The client reads the element through the pointer, if `array_at` returns one.
abbrev pub read_at : Array → Option Ptr → Run (Option Bytes)
read_at a none = ok none
read_at a (some p) = deref a p >>= λ x. ok (some x)

module _ (m : Memory) where
  unfoldable pub call : Array → Call → Run (Answer × Array)
  unfolding push_back pop_back insert_at erase_at at deref clear
  call a (pushes x) = push_back m a x >>= λ r. ok ((r.0, none), r.1)
  call a pops = let (status, b) = pop_back a in ok ((status, none), b)
  call a (inserts i x) = insert_at m a i x >>= λ r. ok ((r.0, none), r.1)
  call a (erases i) = erase_at a i >>= λ r. ok ((r.0, none), r.1)
  call a (reads i) = read_at a (at a i) >>= λ x. ok ((0, x), a)
  call a clears = let (status, b) = clear a in ok ((status, none), b)

  -- A history of calls by one client after another.
  unfoldable pub calls : Array → List Call → Run (List Answer)
  unfolding call
  calls a [] = ok []
  calls a (c ∷ cs) = do (answer, b) ← call a c; answers ← calls b cs; ok (answer ∷ answers)

  -- The array after a call stands for the vector after it, and the answers are the same.
  pub record Steps (a : Array) (c : Call) (answer : Answer) (b : Array) : Type 0 where
    pub valid : IsValid b
    pub same_elem_size : b.elem_size ≡ a.elem_size
    pub same_step : vec_step (vector a) c ≡ (answer, vector b)

  abbrev pub Answers : Array → Call → Type 0
  Answers a c = (answer : Answer) × (b : Array) × (call a c ≡ ok (answer, b)) × Steps a c answer b
