-- ===== src/Server/Dispatch.antt =====
-- How `server_dispatch` deals messages out to the workers.
use zdia.Prelude.{
  ℕ, ◌+◌, ◌%◌, ◌≤◌, ◌<◌, ◌≡◌, refl, sym, ap, ap₂, map-append, ◌∙◌, Bool, true, false, Bool-cases,
  inl, inr, some, List, [], ◌∷◌, ◌++◌, append_assoc, append-nil, map, arith, Run, ok, ◌>>=◌, ◌==◌,
  ==_iff, eq→==, ne→==, if◌then◌else◌, length, get_elem?, set, set_same, length-set, length-append,
  get_elem?-some, get_elem?-set_self, get_elem?-set_ne, pos,
}
use native.Mathlib.Nat.{mod-add-mod}
use zdia.Queue.Refine.{next-after}
use zdia.Msg.{Msg}
use zdia.Queue.Fifo.{fifo_push}
use zdia.Server.{
  Server, Worker, Event, event_msg, enqueue, next_worker, queue_bound, worker_push_msg,
  server_dispatch,
}

-- There is a worker to take the next message.
abbrev pub IsValid : Server → Type 0
IsValid s = s.curr_worker < length s.workers

-- The server with its next message in the queue of worker `w`.
abbrev pub dealt : Server → Worker → Msg → Server
dealt s w msg = record s {
  workers = set s.workers s.curr_worker (enqueue w (event_msg msg));
  curr_worker = next_worker (length s.workers) s.curr_worker;
}

pub dispatch_step :
    (s : Server) (w : Worker) (msg : Msg)
    → get_elem? s.workers s.curr_worker ≡ some w
    → IsValid s
    → server_dispatch s msg ≡ ok (pos 0, dealt s w msg)
unfolding server_dispatch worker_push_msg
dispatch_step s w msg found v = rw (ne→== (length s.workers) 0 (λ e. omega arith), found) refl

enqueue-full : (w : Worker) (ev : Event) → length w.queue ≡ queue_bound → enqueue w ev ≡ w
unfolding fifo_push
enqueue-full w ev full = rw (eq→== (length w.queue) queue_bound full) refl

-- When the queue of the worker at `curr_worker` is full, `server_dispatch` reports success, and
-- the workers with their queues are as they were: the message is lost.
pub dispatch-lost :
    (s : Server) (w : Worker) (msg : Msg)
    → get_elem? s.workers s.curr_worker ≡ some w
    → IsValid s
    → length w.queue ≡ queue_bound
    → (s' : Server) × (server_dispatch s msg ≡ ok (pos 0, s')) × (s'.workers ≡ s.workers)
dispatch-lost s w msg found v full = (
  dealt s w msg,
  dispatch_step s w msg found v,
  ap (set s.workers s.curr_worker) (enqueue-full w (event_msg msg) full)
      ∙ set_same s.workers s.curr_worker w found,
)

enqueue-room :
    (w : Worker) (ev : Event)
    → length w.queue < queue_bound
    → (enqueue w ev).queue ≡ w.queue ++ (ev ∷ [])
unfolding fifo_push
enqueue-room w ev room = rw (ne→== (length w.queue) queue_bound (λ e. omega arith)) refl

-- The messages of a connection, one after another.
unfoldable pub dispatch_all : Server → List Msg → Run Server
unfolding server_dispatch
dispatch_all s [] = ok s
dispatch_all s (msg ∷ msgs) = do (_, s') ← server_dispatch s msg; dispatch_all s' msgs

-- Of messages numbered from `k` on, those whose number is `i` modulo `n`.
unfoldable pub share : ℕ → ℕ → ℕ → List Msg → List Msg
share n k i [] = []
share n k i (msg ∷ msgs) =
    let rest = share n (k + 1) i msgs in if k % n == i then msg ∷ rest else rest

-- Every queue has room for so many events more.
abbrev pub HasRoom : Server → ℕ → Type 0
HasRoom s count =
    (i : ℕ) (w : Worker) → get_elem? s.workers i ≡ some w → length w.queue + count ≤ queue_bound

-- What worker `i` gets of the messages.
abbrev pub Gets : Server → Server → ℕ → List Msg → Type 0
Gets s s' k msgs =
    (i : ℕ) (w : Worker)
    → get_elem? s.workers i ≡ some w
    → (w' : Worker) × (get_elem? s'.workers i ≡ some w')
      × (w'.queue ≡ w.queue ++ map event_msg (share (length s.workers) k i msgs))

some-injective : {A : Type 0} {a b : A} → some a ≡ some b → a ≡ b
some-injective e = cc

true-false : ◌≡◌ {A = Bool} true false → ⊥
true-false e = cc

pub next_worker-lt : (n i : ℕ) → i < n → next_worker n i < n
next_worker-lt n i h = ground arith

module _ (s : Server) (w : Worker) (msg : Msg) (k : ℕ)
    (found : get_elem? s.workers s.curr_worker ≡ some w) (v : IsValid s)
    (at : s.curr_worker ≡ k % length s.workers) where
  next_at : next_worker (length s.workers) s.curr_worker ≡ (k + 1) % length s.workers
  next_at =
      sym (next-after (length s.workers) s.curr_worker v)
      ∙ ap (λ t. (t + 1) % length s.workers) at
      ∙ mod-add-mod k (length s.workers) 1

  -- One message goes to the worker whose turn it is.
  dealt-Gets : length w.queue < queue_bound → Gets s (dealt s w msg) k (msg ∷ [])
  unfolding share
  dealt-Gets room i u e = elim (Bool-cases (k % length s.workers == i)) [
    | inl t ↦
        let same : s.curr_worker ≡ i = at ∙ (==_iff _ _).0 t in
        (
          enqueue w (event_msg msg),
          ap (get_elem? (dealt s w msg).workers) (sym same)
              ∙ get_elem?-set_self s.workers s.curr_worker (enqueue w (event_msg msg)) v,
          rw t (
              enqueue-room w (event_msg msg) room
              ∙ ap (λ (x : Worker). x.queue ++ (event_msg msg ∷ []))
                  (some-injective (sym found ∙ ap (get_elem? s.workers) same ∙ e))),
        )
    | inr f ↦ (
      u,
      get_elem?-set_ne s.workers s.curr_worker i (enqueue w (event_msg msg))
            (λ same. true-false (sym (eq→== (k % length s.workers) i (sym at ∙ same)) ∙ f))
          ∙ e,
      rw f (sym (append-nil u.queue)),
    )
  ]

  dealt-HasRoom : (count : ℕ) → HasRoom s (count + 1) → HasRoom (dealt s w msg) count
  dealt-HasRoom count room i u e = elim (Bool-cases (s.curr_worker == i)) [
    | inl t ↦
        let same = (==_iff _ _).0 t in
        let u_w : enqueue w (event_msg msg) ≡ u = some-injective (
          sym (get_elem?-set_self s.workers s.curr_worker (enqueue w (event_msg msg)) v)
          ∙ ap (get_elem? (dealt s w msg).workers) same
          ∙ e) in
        let fits = room s.curr_worker w found in
        let longer =
          ap length (enqueue-room w (event_msg msg) (omega arith))
          ∙ length-append w.queue (event_msg msg ∷ []) in
        rw (← u_w) (omega (arith, longer))
    | inr f ↦
        let fits = room i u (
          sym (
            get_elem?-set_ne s.workers s.curr_worker i (enqueue w (event_msg msg))
              (λ same. true-false (sym (eq→== s.curr_worker i same) ∙ f)))
          ∙ e) in
        omega arith
  ]

share-∷ :
    (n k i : ℕ) (msg : Msg) (msgs : List Msg)
    → share n k i (msg ∷ msgs) ≡ share n k i (msg ∷ []) ++ share n (k + 1) i msgs
unfolding share
share-∷ n k i msg msgs = elim (Bool-cases (k % n == i)) [ inl t ↦ rw t refl | inr f ↦ rw f refl ]

queues_join :
    (q0 q1 q2 : List Event) (n n' k i : ℕ) (msg : Msg) (msgs : List Msg)
    → n' ≡ n
    → q1 ≡ q0 ++ map event_msg (share n k i (msg ∷ []))
    → q2 ≡ q1 ++ map event_msg (share n' (k + 1) i msgs)
    → q2 ≡ q0 ++ map event_msg (share n k i (msg ∷ msgs))
queues_join q0 q1 q2 n n' k i msg msgs same a b =
    b
    ∙ ap₂ (λ q m. q ++ map event_msg (share m (k + 1) i msgs)) a same
    ∙ append_assoc q0 (map event_msg one) (map event_msg others)
    ∙ ap (λ t. q0 ++ t) (sym (map-append event_msg one others))
    ∙ ap (λ ms. q0 ++ map event_msg ms) (sym (share-∷ n k i msg msgs))
  where
    one : List Msg
    one = share n k i (msg ∷ [])

    others : List Msg
    others = share n (k + 1) i msgs

-- If `curr_worker` is a worker, and every queue has room for all the messages, `server_dispatch`
-- deals them out in turn: with `n` workers, numbering the messages from a `k` that is
-- `curr_worker` modulo `n`, worker `i` gets, in order, those whose number is `i` modulo `n`,
-- behind what its queue held.
pub round_robin :
    (msgs : List Msg) (s : Server) (k : ℕ)
    → IsValid s
    → s.curr_worker ≡ k % length s.workers
    → HasRoom s (length msgs)
    → (s' : Server) × (dispatch_all s msgs ≡ ok s') × IsValid s' × Gets s s' k msgs
unfolding dispatch_all share
round_robin [] s k v at room = (s, refl, v, λ i w e. (w, e, sym (append-nil w.queue)))
round_robin (msg ∷ msgs) s k v at room =
    let (w, found) = get_elem?-some s.workers s.curr_worker v in
    let fits = room s.curr_worker w found in
    let n_same = length-set s.workers s.curr_worker (enqueue w (event_msg msg)) in
    let turn = next_at s w msg k found v at in
    let (s', ran, v', gets) =
      round_robin msgs (dealt s w msg) (k + 1)
        (rw n_same (next_worker-lt (length s.workers) s.curr_worker v)) (rw n_same turn)
        (dealt-HasRoom s w msg k found v at (length msgs) (λ i u e. omega (arith, room i u e))) in
    (
      s',
      rw (dispatch_step s w msg found v) ran,
      v',
      λ i u e.
          let (u1, e1, q1) = dealt-Gets s w msg k found v at (omega arith) i u e in
          let (u2, e2, q2) = gets i u1 e1 in
          (u2, e2, queues_join u.queue u1.queue u2.queue _ _ k i msg msgs n_same q1 q2),
    )
