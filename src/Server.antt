-- ===== src/Server.antt =====
-- server.c and worker.c: the server's workers, each with its queue of events, and the choice of a
-- worker for a message. A worker's queue is the bounded FIFO of `Queue.Fifo`, with events as its
-- elements; a pointer to a message is the message.
pub mod Dispatch
pub mod Start
pub mod Accept
use zdia.Prelude.{
  ℕ, ◌+◌, ◌-◌, Option, none, some, List, [], ◌++◌, Run, ok, ◌>>=◌, non_null, ◌==◌, if◌then◌else◌,
  length, get_elem?, set, ℤ, pos, negsuc,
}
use zdia.Dict.Types.{Dict}
use zdia.Msg.{Msg}
use zdia.Queue.Fifo.{fifo_push}

pub data IndCode : Type 0 where
  ind_conn_up ind_conn_down ind_peer_up ind_peer_down ind_timeout : IndCode

pub record Ind : Type 0 where
  pub code : IndCode

-- The `type` of an event says which member of its union is set.
pub data Event : Type 0 where
  event_msg : Msg → Event
  event_ind : Ind → Event

-- The thread and the pointer to the server are left out.
pub record Worker : Type 0 where
  pub id : ℕ
  pub status : ℕ
  pub queue : List Event

-- `queue_new(sizeof(event_t), 1024)`; one slot stays free.
abbrev pub queue_capacity : ℕ
queue_capacity = 1024

abbrev pub queue_bound : ℕ
queue_bound = queue_capacity - 1

-- `queue_push(worker->queue, &ev)`
abbrev pub enqueue : Worker → Event → Worker
enqueue w ev = record w { queue = (fifo_push queue_bound w.queue ev).1 }

-- The status of `queue_push` is dropped.
unfoldable pub worker_push_msg : Worker → Msg → ℕ × Worker
unfolding fifo_push
worker_push_msg w msg = (0, enqueue w (event_msg msg))

unfoldable pub worker_push_ind : Worker → Ind → ℕ × Worker
unfolding fifo_push
worker_push_ind w ind = (0, enqueue w (event_ind ind))

pub record Server : Type 0 where
  pub dict : Option Dict
  pub workers : List Worker
  pub curr_worker : ℕ

-- `curr_worker++`, and back to 0 at the number of workers.
abbrev pub next_worker : ℕ → ℕ → ℕ
next_worker n i = if i + 1 == n then 0 else i + 1

-- A null pointer of `array_at` is a fault.
unfoldable pub server_dispatch : Server → Msg → Run (ℤ × Server)
unfolding worker_push_msg
server_dispatch s msg = if length s.workers == 0 then ok (negsuc 0, s) else do
  w ← non_null (get_elem? s.workers s.curr_worker)
  let (_, w') = worker_push_msg w msg
  ok (
    pos 0,
    record s {
      workers = set s.workers s.curr_worker w';
      curr_worker = next_worker (length s.workers) s.curr_worker;
    },
  )
