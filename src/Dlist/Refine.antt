-- ===== src/Dlist/Refine.antt =====
-- list.c: any history of calls on a list of nodes against the sequence of its nodes.
use zdia.Prelude.{
  ℕ, ◌≡◌, ◌≢◌, ◌⊎◌, inl, inr, refl, sym, ap, subst, Bool, List, [], ◌∷◌, ◌++◌, length, Run, ok,
  ◌>>=◌, ◌==◌, if◌then◌else◌, Bool-cases, false, ==_iff, arith,
}
use zdia.Dlist.{Links, list_empty, list_add_head, list_add_tail, list_del}
use zdia.Dlist.Rings.{Ring, NotIn, list_add_head-Ring, list_empty_lem}
use zdia.Dlist.Rings.Delete.{list_del-Ring}
use zdia.Dlist.Rings.Tail.{list_add_tail-Ring}

-- A call of a client; `asks_empty` has an answer.
pub data Call : Type 0 where
  adds_head : ℕ → Call
  adds_tail : ℕ → Call
  deletes : ℕ → Call
  asks_empty : Call

abbrev pub remove : ℕ → List ℕ → List ℕ
remove e [] = []
remove e (x ∷ xs) = if e == x then xs else (x ∷ remove e xs)

abbrev pub seq_step : List ℕ → Call → List ℕ
seq_step xs (adds_head e) = e ∷ xs
seq_step xs (adds_tail e) = xs ++ (e ∷ [])
seq_step xs (deletes e) = remove e xs
seq_step xs asks_empty = xs

abbrev pub seq_answer : List ℕ → Call → List Bool
seq_answer xs asks_empty = (length xs == 0) ∷ []
seq_answer xs other = []

-- The answers of a history, and the nodes after it.
unfoldable pub seq_run : List ℕ → List Call → List Bool × List ℕ
seq_run xs [] = ([], xs)
seq_run xs (c ∷ cs) =
    let (answers, ys) = seq_run (seq_step xs c) cs in (seq_answer xs c ++ answers, ys)

abbrev pub In : ℕ → List ℕ → Type 0
In e [] = ⊥
In e (x ∷ xs) = (e ≡ x) ⊎ In e xs

-- A node that is added is not null and not in the list; one that is deleted is in it.
abbrev pub Allowed : ℕ → List ℕ → Call → Type 0
Allowed l xs (adds_head e) = (0 ≢ e) × NotIn e (l ∷ xs)
Allowed l xs (adds_tail e) = (0 ≢ e) × NotIn e (l ∷ xs)
Allowed l xs (deletes e) = In e xs
Allowed l xs asks_empty = Unit

unfoldable pub AllAllowed : ℕ → List ℕ → List Call → Type 0
AllAllowed l xs [] = Unit
AllAllowed l xs (c ∷ cs) = Allowed l xs c × AllAllowed l (seq_step xs c) cs

unfoldable pub call : Links → ℕ → Call → Run (List Bool × Links)
unfolding list_add_head list_add_tail list_del list_empty
call s l (adds_head e) = list_add_head s l e >>= λ s'. ok ([], s')
call s l (adds_tail e) = list_add_tail s l e >>= λ s'. ok ([], s')
call s l (deletes e) = list_del s e >>= λ s'. ok ([], s')
call s l asks_empty = list_empty s l >>= λ b. ok (b ∷ [], s)

-- A history of calls on the list with head `l`.
unfoldable pub calls : Links → ℕ → List Call → Run (List Bool × Links)
unfolding call
calls s l [] = ok ([], s)
calls s l (c ∷ cs) = do
  (answer, s1) ← call s l c
  (answers, s2) ← calls s1 l cs
  ok (answer ++ answers, s2)

-- A node of a list, with those around it.
split :
    (e : ℕ) (xs : List ℕ)
    → In e xs
    → (ys : List ℕ) × (zs : List ℕ) × (xs ≡ ys ++ (e ∷ zs)) × (remove e xs ≡ ys ++ zs)
split e [] h = absurd h
split e (x ∷ xs) h = elim (Bool-cases (e == x)) [
  | inl same ↦ ([], xs, ap (λ q. q ∷ xs) (sym ((==_iff e x).0 same)), rw same refl)
  | inr other ↦
      let (ys, zs, parts, removed) = split e xs (later h other) in
      (x ∷ ys, zs, ap (λ q. x ∷ q) parts, rw other (ap (λ q. x ∷ q) removed))
]
  where
    later : (e ≡ x) ⊎ In e xs → (e == x) ≡ false → In e xs
    later (inl eq) other = absurd (ground arith)
    later (inr m) other = m

call_step :
    (c : Call) (s : Links) (l : ℕ) (xs : List ℕ)
    → Ring s l xs
    → Allowed l xs c
    → (s' : Links) × (call s l c ≡ ok (seq_answer xs c, s')) × Ring s' l (seq_step xs c)
unfolding call
call_step (adds_head e) s l xs r (he, fresh) =
    let (s', ran, r') = list_add_head-Ring s l e xs r he fresh in (s', rw ran refl, r')
call_step (adds_tail e) s l xs r (he, fresh) =
    let (s', ran, r') = list_add_tail-Ring s l e xs r he fresh in (s', rw ran refl, r')
call_step (deletes e) s l xs r m =
    let (ys, zs, parts, removed) = split e xs m in
    let (s', ran, r', _, _) = list_del-Ring s l e ys zs (subst (Ring s l) parts r) in
    (s', rw ran refl, subst (Ring s' l) (sym removed) r')
call_step asks_empty s l xs r h = (s, rw (list_empty_lem s l xs r) refl, r)

-- On a list of nodes, any history of `list_add_head` and `list_add_tail`, each of a node that is not
-- null and not in the list, of `list_del` of nodes of the list and of `list_empty` runs without a
-- fault. The answers of `list_empty` are those of the sequence of nodes, and afterwards the ring
-- holds, forwards and backwards, the nodes that the sequence has.
pub ring_refines :
    (cs : List Call) (s : Links) (l : ℕ) (xs : List ℕ)
    → Ring s l xs
    → AllAllowed l xs cs
    → (s' : Links) × (calls s l cs ≡ ok ((seq_run xs cs).0, s')) × Ring s' l (seq_run xs cs).1
unfolding calls seq_run AllAllowed
ring_refines [] s l xs r h = (s, refl, r)
ring_refines (c ∷ cs) s l xs r (now, later) =
    let (s1, ran, r1) = call_step c s l xs r now in
    let (s2, ran', r2) = ring_refines cs s1 l (seq_step xs c) r1 later in
    (s2, rw (ran, ran') refl, r2)
