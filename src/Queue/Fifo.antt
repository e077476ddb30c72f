-- ===== src/Queue/Fifo.antt =====
-- What a queue promises: first in, first out, with a bound on the number of elements.
use zdia.Prelude.{ℕ, Option, none, some, List, [], ◌∷◌, ◌++◌, length, ◌==◌, if◌then◌else◌}
use zdia.Bytes.{Bytes}

-- A call of a client, and its answer: the status, and the element that `pop` returns.
pub data Call : Type 0 where
  pushes : Bytes → Call
  pops : Call

abbrev pub Answer : Type 0
Answer = ℕ × Option Bytes

module _ (bound : ℕ) where
  -- The statuses are those of errno.h, as in the code: EINVAL and ENOENT.
  unfoldable pub fifo_push {ℓ} : {A : Type ℓ} → List A → A → ℕ × List A
  fifo_push q x = if length q == bound then (22, q) else (0, q ++ (x ∷ []))

unfoldable pub fifo_pop {ℓ} : {A : Type ℓ} → List A → ℕ × Option A × List A
fifo_pop [] = (2, none, [])
fifo_pop (x ∷ q) = (0, some x, q)

-- A history of calls against the bounded FIFO.
unfoldable pub fifo_run : ℕ → List Bytes → List Call → List Answer
unfolding fifo_push fifo_pop
fifo_run bound q [] = []
fifo_run bound q (pushes x ∷ cs) =
    let (s, q') = fifo_push bound q x in (s, none) ∷ fifo_run bound q' cs
fifo_run bound q (pops ∷ cs) = let (s, out, q') = fifo_pop q in (s, out) ∷ fifo_run bound q' cs
