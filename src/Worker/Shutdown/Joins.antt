-- ===== src/Worker/Shutdown/Joins.antt =====
-- worker.c: a call of `worker_stop` beside the worker's thread and the receivers.
use zdia.Prelude.{
  ℕ, ◌≡◌, ◌≢◌, refl, List, [], ◌∷◌, ok, ◌>>=◌, sym, subst, ne→==, ap, ◌∙◌, ◌++◌, bind_parts,
}
use zdia.Heap.{Live}
use zdia.Free.Objects.{QueueAt}
use zdia.Queue.Fifo.{fifo_pop}
use zdia.Server.{Worker, Event}
use zdia.Worker.Shutdown.{
  ThreadAt, starting, at_test, at_pop, asleep, working, ended, MainAt, freeing_queue, stop_test,
  stop_write, joining, freeing_worker, finished, State, Move, thread_moves, main_moves, thread_step,
  main_step, move, run, at_call,
}
use zdia.Worker.Shutdown.Stop.{HasEnded, Phase, IsThere, IsStopping, worker_of, run-Keeps}

-- Moves after which a call of `worker_stop` is over.
abbrev pub last_moves : List Move
last_moves = main_moves ∷ main_moves ∷ thread_moves ∷ thread_moves ∷ thread_moves ∷ main_moves ∷ []

-- The thread is after_join, or is waited for.
abbrev Waits : MainAt → Type 0
Waits joining = Unit
Waits finished = Unit
Waits other = ⊥

module _ (w : ℕ) (q : QueueAt) where
  run-append :
      (ms ns : List Move) (s s1 : State)
      → run w q ms s ≡ ok s1
      → run w q (ms ++ ns) s ≡ run w q ns s1
  unfolding run
  run-append [] ns s s1 e = ap (λ r. r >>= run w q ns) e
  run-append (m ∷ ms) ns s s1 e =
      let (s2, here, later) = bind_parts (move w q m s) (run w q ms) s1 e in
      rw here (run-append ms ns s2 s1 later)

  thread_moves-ended :
      (m : MainAt) (id : ℕ) (evs : List Event) (live : Live) (t : ThreadAt)
      → IsThere w q live
      → (evs' : List Event) × (run w q
            (thread_moves ∷ thread_moves ∷ thread_moves ∷ [])
            (at_call m finished (worker_of id 0 evs) live t)
          ≡ ok (at_call m finished (worker_of id 0 evs') live ended))
  unfolding run move thread_step fifo_pop
  thread_moves-ended m id evs live starting (tw, tq, td) = (evs, rw (tw, tw) refl)
  thread_moves-ended m id evs live at_test (tw, tq, td) = (evs, rw tw refl)
  thread_moves-ended m id [] live at_pop (tw, tq, td) = ([], rw (tq, tw) refl)
  thread_moves-ended m id (ev ∷ evs) live at_pop (tw, tq, td) = (evs, rw (tq, td, tw) refl)
  thread_moves-ended m id evs live asleep (tw, tq, td) = (evs, rw tw refl)
  thread_moves-ended m id evs live (working ev) (tw, tq, td) = (evs, rw tw refl)
  thread_moves-ended m id evs live ended there = (evs, refl)

  main_step-Waits :
      (m : MainAt) (id : ℕ) (evs : List Event) (live : Live) (t : ThreadAt)
      → Waits m
      → (m' : MainAt) × Waits m'
        × (main_step w q (at_call m finished (worker_of id 0 evs) live t)
            ≡ ok (at_call m' finished (worker_of id 0 evs) live t))
  unfolding main_step
  main_step-Waits freeing_queue id evs live t h = absurd h
  main_step-Waits stop_test id evs live t h = absurd h
  main_step-Waits stop_write id evs live t h = absurd h
  main_step-Waits freeing_worker id evs live t h = absurd h
  main_step-Waits finished id evs live t h = (finished, tt, refl)
  main_step-Waits joining id evs live starting h = (joining, tt, refl)
  main_step-Waits joining id evs live at_test h = (joining, tt, refl)
  main_step-Waits joining id evs live at_pop h = (joining, tt, refl)
  main_step-Waits joining id evs live asleep h = (joining, tt, refl)
  main_step-Waits joining id evs live (working ev) h = (joining, tt, refl)
  main_step-Waits joining id evs live ended h = (finished, tt, refl)

  two_joins-Waits :
      (m : MainAt) (id : ℕ) (evs : List Event) (live : Live) (t : ThreadAt)
      → Waits m
      → (m' : MainAt) × Waits m'
        × (run w q (main_moves ∷ main_moves ∷ []) (at_call m finished (worker_of id 0 evs) live t)
            ≡ ok (at_call m' finished (worker_of id 0 evs) live t))
  unfolding run move
  two_joins-Waits m id evs live t h =
      let (m1, h1, e1) = main_step-Waits m id evs live t h in
      let (m2, h2, e2) = main_step-Waits m1 id evs live t h1 in (m2, h2, rw (e1, e2) refl)

  two_moves-Waits :
      (m : MainAt) (id status : ℕ) (evs : List Event) (live : Live) (t : ThreadAt)
      → IsThere w q live
      → Phase m status t
      → (m' : MainAt) × Waits m'
        × (run w q
              (main_moves ∷ main_moves ∷ [])
              (at_call m finished (worker_of id status evs) live t)
            ≡ ok (at_call m' finished (worker_of id 0 evs) live t))
  unfolding run move main_step
  two_moves-Waits freeing_queue id status evs live t there p = absurd p
  two_moves-Waits freeing_worker id status evs live t there p = absurd p
  two_moves-Waits stop_test id status evs live t (tw, tq, td) (nz, going) =
      (joining, tt, rw (tw, ne→== status 0 nz, tw) refl)
  two_moves-Waits stop_write id status evs live t (tw, tq, td) p =
      let (m', h, e) = main_step-Waits joining id evs live t tt in (m', h, rw (tw, e) refl)
  two_moves-Waits joining id status evs live t there z =
      let (m', h, e) = two_joins-Waits joining id evs live t tt in
      (
        m',
        h,
        subst
            (λ k.
              run w q (main_moves ∷ main_moves ∷ [])
                (at_call joining finished (worker_of id k evs) live t)
              ≡ ok (at_call m' finished (worker_of id 0 evs) live t))
            (sym z) e,
      )
  two_moves-Waits finished id status evs live t there (z, e) = (finished, tt, rw z refl)

  last_move-finished :
      (m : MainAt) (worker : Worker) (live : Live)
      → Waits m
      → main_step w q (at_call m finished worker live ended)
        ≡ ok (at_call finished finished worker live ended)
  unfolding main_step
  last_move-finished freeing_queue worker live h = absurd h
  last_move-finished stop_test worker live h = absurd h
  last_move-finished stop_write worker live h = absurd h
  last_move-finished freeing_worker worker live h = absurd h
  last_move-finished finished worker live h = refl
  last_move-finished joining worker live h = refl

  last_moves-finished :
      (s : State)
      → IsStopping w q s
      → (s' : State) × (run w q last_moves s ≡ ok s') × (s'.main ≡ finished)
  unfolding run move
  last_moves-finished s i =
      let id = s.worker.id in
      let evs = s.worker.queue in
      let (m', h, e1) =
        two_moves-Waits s.main id s.worker.status evs s.live s.thread i.there i.phase in
      let (evs', e2) = thread_moves-ended m' id evs s.live s.thread i.there in
      let two = main_moves ∷ main_moves ∷ [] in
      let three = thread_moves ∷ thread_moves ∷ thread_moves ∷ [] in
      let s1 = at_call m' finished (worker_of id 0 evs) s.live s.thread in
      let s2 = at_call m' finished (worker_of id 0 evs') s.live ended in
      let e0 : run w q two s ≡ ok s1 =
        subst
          (λ a.
            run w q two (at_call s.main a (worker_of id s.worker.status evs) s.live s.thread)
            ≡ ok s1)
          (sym i.after) e1 in
      (
        at_call finished finished (worker_of id 0 evs') s.live ended,
        run-append two (three ++ (main_moves ∷ [])) s s1 e0
            ∙ run-append three (main_moves ∷ []) s1 s2 e2
            ∙ rw (last_move-finished m' (worker_of id 0 evs') s.live h) refl,
        refl,
      )

  -- `worker_stop` of a worker whose thread runs, in any interleaving of its steps with those of the
  -- thread and with any pushes of the receivers. Where the worker, its queue and the queue's data are
  -- allocated and the status is not 0, there is no fault, these blocks are still allocated, and
  -- `worker_stop` has returned only where the status is 0 and the thread has ended. And from
  -- wherever the interleaving has come to, two more steps of the call, three of the thread and
  -- one of the call let it return.
  pub worker_stop-joins :
      (worker : Worker) (live : Live) (t : ThreadAt) (moves : List Move)
      → IsThere w q live
      → worker.status ≢ 0
      → ¬ HasEnded t
      → (s : State) × (run w q moves (at_call stop_test finished worker live t) ≡ ok s)
        × IsThere w q s.live
        × (s.main ≡ finished → (s.worker.status ≡ 0) × HasEnded s.thread)
        × (s' : State) × (run w q last_moves s ≡ ok s')
        × (s'.main ≡ finished)
  worker_stop-joins worker live t moves there nz going =
      let (s, e, i) =
        run-Keeps w q moves (at_call stop_test finished worker live t)
          (record { there = there; phase = (nz, going); after = refl }) in
      (
        s,
        e,
        i.there,
        (λ f. subst (λ m. Phase m s.worker.status s.thread) f i.phase),
        (last_moves-finished s i).0,
        (last_moves-finished s i).1,
        (last_moves-finished s i).2,
      )
