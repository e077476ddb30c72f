-- ===== src/Worker/Shutdown/FreeWhileRunning.antt =====
-- worker.c: a call of `worker_free` beside the worker's thread and the receivers.
use zdia.Prelude.{
  inl, inr, ℕ, ◌≡◌, ◌≢◌, refl, sym, ◌∙◌, some, List, [], ◌∷◌, ◌++◌, ok, fault, ne→==, eq→==,
}
use zdia.Heap.{Live, touch, zd_free}
use zdia.Heap.Owned.{Owned, without, touch-Owned}
use zdia.Free.Objects.{QueueAt, queue_free}
use zdia.Server.{Worker, Event}
use zdia.Worker.Shutdown.{
  ThreadAt, starting, at_test, at_pop, asleep, working, ended, MainAt, freeing_queue, stop_test,
  freeing_worker, State, Move, thread_moves, main_moves, receiver_pushes, thread_step, main_step,
  push_event, move, run, at_call,
}
use zdia.Worker.Shutdown.Stop.{HasEnded}

abbrev pub queue_blocks : QueueAt → List ℕ
queue_blocks q = q.data_block ∷ q.queue ∷ []

-- Steps of the thread up to its call of `queue_pop`.
abbrev pub to_pop : ThreadAt → List Move
to_pop at_pop = thread_moves ∷ []
to_pop at_test = thread_moves ∷ thread_moves ∷ []
to_pop other = thread_moves ∷ thread_moves ∷ thread_moves ∷ []

module _ (w : ℕ) (q : QueueAt) where
  queue_free_lem :
      (live : Live)
      → Owned (queue_blocks q ++ (w ∷ [])) live
      → queue_free (some q) live ≡ ok (without (queue_blocks q) live)
  unfolding queue_free zd_free
  queue_free_lem live (dz, dl, (dq, (dw, _)), (qz, ql, (qw, _), (wz, wl, _, _))) =
      rw
        (
          ne→== q.queue 0 qz,
          ql,
          ne→== q.data_block 0 dz,
          dl,
          ne→== q.queue 0 qz,
          ne→== q.queue q.data_block (λ e. dq (sym e)),
          ql,
        )
        refl

  touch-here : (live : Live) → Owned (queue_blocks q ++ (w ∷ [])) live → touch w live ≡ ok live
  touch-here live o = touch-Owned w (queue_blocks q ++ (w ∷ [])) live (inr (inr (inl refl))) o

  touch-worker :
      (live : Live)
      → Owned (queue_blocks q ++ (w ∷ [])) live
      → touch w (without (queue_blocks q) live) ≡ ok (without (queue_blocks q) live)
  touch-worker live (dz, dl, (dq, (dw, _)), (qz, ql, (qw, _), (wz, wl, _, _))) =
      rw
        (
          ne→== w 0 wz,
          ne→== w q.queue (λ e. qw (sym e)),
          ne→== w q.data_block (λ e. dw (sym e)),
          wl,
        )
        refl

  touch-freed_queue :
      (live : Live)
      → Owned (queue_blocks q ++ (w ∷ [])) live
      → touch q.queue (without (queue_blocks q) live) ≡ fault
  touch-freed_queue live (dz, dl, (dq, (dw, _)), (qz, ql, (qw, _), (wz, wl, _, _))) =
      rw (ne→== q.queue 0 qz, eq→== q.queue q.queue refl) refl

  to_pop-faults :
      (m after : MainAt) (worker : Worker) (live : Live) (t : ThreadAt)
      → touch w live ≡ ok live
      → touch q.queue live ≡ fault
      → worker.status ≢ 0
      → ¬ HasEnded t
      → run w q (to_pop t) (at_call m after worker live t) ≡ fault
  unfolding run move thread_step
  to_pop-faults m after worker live starting tw tq nz going =
      rw (tw, tw, ne→== worker.status 0 nz, tq) refl
  to_pop-faults m after worker live at_test tw tq nz going =
      rw (tw, ne→== worker.status 0 nz, tq) refl
  to_pop-faults m after worker live at_pop tw tq nz going = rw tq refl
  to_pop-faults m after worker live asleep tw tq nz going =
      rw (tw, ne→== worker.status 0 nz, tq) refl
  to_pop-faults m after worker live (working ev) tw tq nz going =
      rw (tw, ne→== worker.status 0 nz, tq) refl
  to_pop-faults m after worker live ended tw tq nz going = absurd (going tt)

  free_step :
      (ms : List Move) (worker : Worker) (live : Live) (t : ThreadAt)
      → Owned (queue_blocks q ++ (w ∷ [])) live
      → run w q (main_moves ∷ ms) (at_call freeing_queue freeing_worker worker live t)
        ≡ run w q ms (at_call stop_test freeing_worker worker (without (queue_blocks q) live) t)
  unfolding run move main_step
  free_step ms worker live t o = rw (touch-here live o, queue_free_lem live o) refl

  push-faults :
      (ev : Event) (ms : List Move) (s : State)
      → touch w s.live ≡ ok s.live
      → touch q.queue s.live ≡ fault
      → run w q (receiver_pushes ev ∷ ms) s ≡ fault
  unfolding run move push_event
  push-faults ev ms s tw tq = rw (tw, tq) refl

  -- `worker_free` of a worker whose thread runs, with status other than 0 and with the worker, its
  -- queue and the queue's data allocated, can fault, wherever the thread is: after the first step of
  -- the call, which frees the queue, the thread gets to `queue_pop` and uses the queue. And if a
  -- receiver pushes an event after that step, it faults whatever the event is.
  pub worker_free-fault :
      (worker : Worker) (live : Live) (t : ThreadAt)
      → Owned (queue_blocks q ++ (w ∷ [])) live
      → worker.status ≢ 0
      → ¬ HasEnded t
      → (run w q (main_moves ∷ to_pop t) (at_call freeing_queue freeing_worker worker live t)
          ≡ fault)
        × ((ev : Event) (ms : List Move)
            → run w q
                (main_moves ∷ receiver_pushes ev ∷ ms)
                (at_call freeing_queue freeing_worker worker live t)
              ≡ fault)
  worker_free-fault worker live t o nz going =
      let after = without (queue_blocks q) live in
      (
        free_step (to_pop t) worker live t o
            ∙ to_pop-faults stop_test freeing_worker worker after t (touch-worker live o)
                (touch-freed_queue live o) nz going,
        λ ev ms.
            free_step (receiver_pushes ev ∷ ms) worker live t o
            ∙ push-faults ev ms (at_call stop_test freeing_worker worker after t)
                (touch-worker live o) (touch-freed_queue live o),
      )
