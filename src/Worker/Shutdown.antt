-- ===== src/Worker/Shutdown.antt =====
-- worker.c: a worker's thread beside the thread that stops or frees the worker, and the pushes of the
-- receivers. A step is what a thread does between two points where another can come in; the functions
-- of the queue are one step each, since they hold its mutex.
pub mod Joins
pub mod Stop
pub mod FreeWhileRunning
use zdia.Prelude.{
  length, ℕ, Bool, Option, none, some, List, [], ◌∷◌, Run, ok, ◌>>=◌, ◌==◌, if◌then◌else◌,
}
use zdia.Heap.{Live, touch, zd_free}
use zdia.Free.Objects.{QueueAt, queue_free}
use zdia.Queue.Fifo.{fifo_pop}
use zdia.Server.{Worker, Event, queue_bound, enqueue}

-- Where `worker_thread` is: before `worker->queue` is read, at the test of the loop, before
-- `queue_pop`, in `usleep`, at work on an event, or at its end.
pub data ThreadAt : Type 0 where
  starting : ThreadAt
  at_test : ThreadAt
  at_pop : ThreadAt
  asleep : ThreadAt
  working : Event → ThreadAt
  ended : ThreadAt

-- Where the other thread is: in `worker_free` before `queue_free`; in `worker_stop` before the test,
-- the assignment or the join; in `worker_free` before `zd_free`; or done.
pub data MainAt : Type 0 where
  freeing_queue : MainAt
  stop_test : MainAt
  stop_write : MainAt
  joining : MainAt
  freeing_worker : MainAt
  finished : MainAt

-- `after_stop` is where the call of `worker_stop` returns to.
pub record State : Type 0 where
  pub worker : Worker
  pub live : Live
  pub thread : ThreadAt
  pub main : MainAt
  pub after_stop : MainAt

pub data Move : Type 0 where
  thread_moves : Move
  main_moves : Move
  receiver_pushes : Event → Move

-- The addresses of the worker and its queue.
module _ (w : ℕ) (q : QueueAt) where
  abbrev pub event_taken : State → List Event → Option Event → Run State
  event_taken s rest none = ok (record s { thread = asleep })
  event_taken s rest (some ev) = touch q.data_block s.live >>= λ l.
      ok (record s { worker = record s.worker { queue = rest }; live = l; thread = working ev })

  abbrev pub pop_event : State → Run State
  pop_event s = touch q.queue s.live >>= λ l.
      let (status, ev, rest) = fifo_pop s.worker.queue in event_taken s rest ev

  abbrev pub thread_goes : State → ThreadAt → Run State
  thread_goes s starting = touch w s.live >>= λ l. ok (record s { thread = at_test })
  thread_goes s at_test = touch w s.live >>= λ l.
      ok (record s { thread = if s.worker.status == 0 then ended else at_pop })
  thread_goes s at_pop = pop_event s
  thread_goes s asleep = ok (record s { thread = at_test })
  thread_goes s (working ev) = ok (record s { thread = at_test })
  thread_goes s ended = ok s

  -- A step of `worker_thread`.
  unfoldable pub thread_step : State → Run State
  unfolding fifo_pop
  thread_step s = thread_goes s s.thread

  -- `pthread_join` waits for the end of the thread.
  abbrev pub after_join : State → ThreadAt → State
  after_join s ended = record s { main = s.after_stop }
  after_join s other = s

  abbrev pub main_goes : State → MainAt → Run State
  main_goes s freeing_queue = touch w s.live >>= λ l1.
      queue_free (some q) l1 >>= λ l2. ok (record s { live = l2; main = stop_test })
  main_goes s stop_test = touch w s.live >>= λ l.
      ok (record s { main = if s.worker.status == 0 then s.after_stop else stop_write })
  main_goes s stop_write = touch w s.live >>= λ l.
      ok (record s { worker = record s.worker { status = 0 }; main = joining })
  main_goes s joining = ok (after_join s s.thread)
  main_goes s freeing_worker = zd_free w s.live >>= λ l. ok (record s { live = l; main = finished })
  main_goes s finished = ok s

  -- A step of `worker_free` or `worker_stop`.
  unfoldable pub main_step : State → Run State
  unfolding queue_free zd_free
  main_step s = main_goes s s.main

  -- A queue that is full is left as it is.
  abbrev pub touch_free_slot : List Event → Live → Run Live
  touch_free_slot evs live = if length evs == queue_bound then ok live else touch q.data_block live

  -- `worker_push_msg` or `worker_push_ind`, of a receiver's thread.
  unfoldable pub push_event : Event → State → Run State
  push_event ev s = touch w s.live >>= λ l1. touch q.queue l1 >>= λ l2.
      touch_free_slot s.worker.queue l2 >>= λ l3.
      ok (record s { worker = enqueue s.worker ev; live = l3 })

  unfoldable pub move : Move → State → Run State
  unfolding thread_step main_step push_event
  move thread_moves s = thread_step s
  move main_moves s = main_step s
  move (receiver_pushes ev) s = push_event ev s

  unfoldable pub run : List Move → State → Run State
  unfolding move
  run [] s = ok s
  run (m ∷ ms) s = move m s >>= run ms

-- A worker whose thread runs, in front of a call.
abbrev pub at_call : MainAt → MainAt → Worker → Live → ThreadAt → State
at_call main after_stop worker live thread = record {
  worker = worker;
  live = live;
  thread = thread;
  main = main;
  after_stop = after_stop;
}
