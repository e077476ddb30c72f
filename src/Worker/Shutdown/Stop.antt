-- ===== src/Worker/Shutdown/Stop.antt =====
-- worker.c: `worker_stop` beside the thread that it stops.
use zdia.Prelude.{
  length, Bool-cases, inl, inr, ℕ, zero, suc, ◌≡◌, ◌≢◌, refl, List, [], ◌∷◌, Run, ok, subst, sym,
  ◌==◌, if◌then◌else◌, ne→==, arith,
}
use zdia.Heap.{Live, touch}
use zdia.Free.Objects.{QueueAt}
use zdia.Queue.Fifo.{fifo_pop}
use zdia.Server.{Worker, Event, enqueue, queue_bound}
use zdia.Worker.Shutdown.{
  ThreadAt, starting, at_test, at_pop, asleep, working, ended, MainAt, freeing_queue, stop_test,
  stop_write, joining, freeing_worker, finished, State, Move, thread_moves, main_moves,
  receiver_pushes, thread_step, main_step, push_event, touch_free_slot, move, run, at_call,
}

abbrev pub HasEnded : ThreadAt → Type 0
HasEnded ended = Unit
HasEnded other = ⊥

-- What holds of the status and of the thread at each point of `worker_stop`.
abbrev pub Phase : MainAt → ℕ → ThreadAt → Type 0
Phase stop_test status t = (status ≢ 0) × ¬ HasEnded t
Phase stop_write status t = (status ≢ 0) × ¬ HasEnded t
Phase joining status t = status ≡ 0
Phase finished status t = (status ≡ 0) × HasEnded t
Phase other status t = ⊥

module _ (w : ℕ) (q : QueueAt) where
  -- The blocks of the worker and its queue are allocated.
  abbrev pub IsThere : Live → Type 0
  IsThere live =
      (touch w live ≡ ok live)
      × (touch q.queue live ≡ ok live)
      × (touch q.data_block live ≡ ok live)

  pub record IsStopping (s : State) : Type 0 where
    pub there : IsThere s.live
    pub phase : Phase s.main s.worker.status s.thread
    pub after : s.after_stop ≡ finished

  abbrev pub Keeps : Run State → Type 0
  Keeps r = (s' : State) × (r ≡ ok s') × IsStopping s'

-- A step of the thread: it ends only where the status is 0.
Phase-thread :
    (m : MainAt) (status : ℕ) (t t' : ThreadAt)
    → ¬ HasEnded t
    → (HasEnded t' → status ≡ 0)
    → Phase m status t
    → Phase m status t'
Phase-thread freeing_queue status t t' going h p = absurd p
Phase-thread stop_test status t t' going h (nz, _) = (nz, λ e. nz (h e))
Phase-thread stop_write status t t' going h (nz, _) = (nz, λ e. nz (h e))
Phase-thread joining status t t' going h p = p
Phase-thread freeing_worker status t t' going h p = absurd p
Phase-thread finished status t t' going h (z, e) = absurd (going e)

abbrev pub worker_of : ℕ → ℕ → List Event → Worker
worker_of id status evs = record { id = id; status = status; queue = evs }

at_test-HasEnded : (k : ℕ) → HasEnded (if k == 0 then ended else at_pop) → k ≡ 0
at_test-HasEnded zero e = refl
at_test-HasEnded (suc k) e =
    absurd
      (subst (λ b. HasEnded (if b then ended else at_pop)) (ne→== (suc k) 0 (λ z. ground arith)) e)

module _ (w : ℕ) (q : QueueAt) where
  -- Where the thread goes, while it has not ended.
  goes :
      (m : MainAt) (id status : ℕ) (evs : List Event) (live : Live) (t t' : ThreadAt)
      → ¬ HasEnded t
      → (HasEnded t' → status ≡ 0)
      → IsThere w q live
      → Phase m status t
      → IsStopping w q (at_call m finished (worker_of id status evs) live t')
  goes m id status evs live t t' going h there p = record {
    there = there;
    phase = Phase-thread m status t t' going h p;
    after = refl;
  }

  thread_step-Keeps :
      (m : MainAt) (id status : ℕ) (evs : List Event) (live : Live) (t : ThreadAt)
      → IsThere w q live
      → Phase m status t
      → Keeps w q (thread_step w q (at_call m finished (worker_of id status evs) live t))
  unfolding thread_step fifo_pop
  thread_step-Keeps m id status evs live starting (tw, tq, td) p = (
    at_call m finished (worker_of id status evs) live at_test,
    rw tw refl,
    goes m id status evs live starting at_test (λ e. e) (λ e. absurd e) (tw, tq, td) p,
  )
  thread_step-Keeps m id status evs live at_test (tw, tq, td) p = (
    at_call m finished (worker_of id status evs) live (if status == 0 then ended else at_pop),
    rw tw refl,
    goes m id status evs live at_test (if status == 0 then ended else at_pop) (λ e. e)
        (at_test-HasEnded status) (tw, tq, td) p,
  )
  thread_step-Keeps m id status [] live at_pop (tw, tq, td) p = (
    at_call m finished (worker_of id status []) live asleep,
    rw tq refl,
    goes m id status [] live at_pop asleep (λ e. e) (λ e. absurd e) (tw, tq, td) p,
  )
  thread_step-Keeps m id status (ev ∷ evs) live at_pop (tw, tq, td) p = (
    at_call m finished (worker_of id status evs) live (working ev),
    rw (tq, td) refl,
    goes m id status evs live at_pop (working ev) (λ e. e) (λ e. absurd e) (tw, tq, td) p,
  )
  thread_step-Keeps m id status evs live asleep there p = (
    at_call m finished (worker_of id status evs) live at_test,
    refl,
    goes m id status evs live asleep at_test (λ e. e) (λ e. absurd e) there p,
  )
  thread_step-Keeps m id status evs live (working ev) there p = (
    at_call m finished (worker_of id status evs) live at_test,
    refl,
    goes m id status evs live (working ev) at_test (λ e. e) (λ e. absurd e) there p,
  )
  thread_step-Keeps m id status evs live ended there p = (
    at_call m finished (worker_of id status evs) live ended,
    refl,
    record { there = there; phase = p; after = refl },
  )

  join-Keeps :
      (id status : ℕ) (evs : List Event) (live : Live) (t : ThreadAt)
      → IsThere w q live
      → status ≡ 0
      → Keeps w q (main_step w q (at_call joining finished (worker_of id status evs) live t))
  unfolding main_step
  join-Keeps id status evs live ended there z = (
    at_call finished finished (worker_of id status evs) live ended,
    refl,
    record { there = there; phase = (z, tt); after = refl },
  )
  join-Keeps id status evs live starting there z =
      (_, refl, record { there = there; phase = z; after = refl })
  join-Keeps id status evs live at_test there z =
      (_, refl, record { there = there; phase = z; after = refl })
  join-Keeps id status evs live at_pop there z =
      (_, refl, record { there = there; phase = z; after = refl })
  join-Keeps id status evs live asleep there z =
      (_, refl, record { there = there; phase = z; after = refl })
  join-Keeps id status evs live (working ev) there z =
      (_, refl, record { there = there; phase = z; after = refl })

  main_step-Keeps :
      (m : MainAt) (id status : ℕ) (evs : List Event) (live : Live) (t : ThreadAt)
      → IsThere w q live
      → Phase m status t
      → Keeps w q (main_step w q (at_call m finished (worker_of id status evs) live t))
  unfolding main_step
  main_step-Keeps freeing_queue id status evs live t there p = absurd p
  main_step-Keeps stop_test id status evs live t (tw, tq, td) (nz, going) = (
    at_call stop_write finished (worker_of id status evs) live t,
    rw (tw, ne→== status 0 nz) refl,
    record { there = (tw, tq, td); phase = (nz, going); after = refl },
  )
  main_step-Keeps stop_write id status evs live t (tw, tq, td) (nz, going) = (
    at_call joining finished (worker_of id 0 evs) live t,
    rw tw refl,
    record { there = (tw, tq, td); phase = refl; after = refl },
  )
  main_step-Keeps joining id status evs live t there z = join-Keeps id status evs live t there z
  main_step-Keeps freeing_worker id status evs live t there p = absurd p
  main_step-Keeps finished id status evs live t there p = (
    at_call finished finished (worker_of id status evs) live t,
    refl,
    record { there = there; phase = p; after = refl },
  )

  touch_free_slot-there :
      (evs : List Event) (live : Live)
      → touch q.data_block live ≡ ok live
      → touch_free_slot w q evs live ≡ ok live
  touch_free_slot-there evs live td = elim (Bool-cases (length evs == queue_bound)) [
    | inl e ↦ rw e refl
    | inr e ↦ rw e td
  ]

  push_event-Keeps : (ev : Event) (s : State) → IsStopping w q s → Keeps w q (push_event w q ev s)
  unfolding push_event
  push_event-Keeps ev s i =
      let (tw, tq, td) = i.there in
      (
        record s { worker = enqueue s.worker ev },
        rw (tw, tq, touch_free_slot-there s.worker.queue s.live td) refl,
        record { there = i.there; phase = i.phase; after = i.after },
      )

  move-Keeps : (mv : Move) (s : State) → IsStopping w q s → Keeps w q (move w q mv s)
  unfolding move
  move-Keeps thread_moves s i =
      subst (λ a. Keeps w q (thread_step w q (record s { after_stop = a }))) (sym i.after)
        (thread_step-Keeps s.main s.worker.id s.worker.status s.worker.queue s.live s.thread i.there
          i.phase)
  move-Keeps main_moves s i =
      subst (λ a. Keeps w q (main_step w q (record s { after_stop = a }))) (sym i.after)
        (main_step-Keeps s.main s.worker.id s.worker.status s.worker.queue s.live s.thread i.there
          i.phase)
  move-Keeps (receiver_pushes ev) s i = push_event-Keeps ev s i

  pub run-Keeps : (ms : List Move) (s : State) → IsStopping w q s → Keeps w q (run w q ms s)
  unfolding run
  run-Keeps [] s i = (s, refl, i)
  run-Keeps (m ∷ ms) s i =
      let (s1, e1, i1) = move-Keeps m s i in
      let (s2, e2, i2) = run-Keeps ms s1 i1 in (s2, rw e1 e2, i2)
