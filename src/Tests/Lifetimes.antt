-- ===== src/Tests/Lifetimes.antt =====
-- Small objects that are freed, and a worker that is stopped.
use zdia.Prelude.{ℕ, ◌+◌, ◌≡◌, refl, false, some, List, [], ◌∷◌, ◌++◌, ok, fault, arith, ltb}
use zdia.Heap.{Live}
use zdia.Heap.Owned.{NotAmong, Owned, without, Among}
use zdia.Free.{ArrayAt, avp_at, no_avps, avps, nil, cons, MsgAt, msg_free}
use zdia.Free.Messages.{msg_blocks, msg_free-without}
use zdia.Free.Objects.{QueueAt, DictAt, dict_free}
use zdia.Free.Dictionary.{dict_blocks, blocks_of, dict_free-entries}
use zdia.Server.{Worker, Event}
use zdia.Worker.Shutdown.{
  at_pop, asleep, stop_test, freeing_queue, freeing_worker, finished, State, Move, main_moves,
  thread_moves, receiver_pushes, run, at_call,
}
use zdia.Worker.Shutdown.Stop.{HasEnded, IsThere}
use zdia.Worker.Shutdown.Joins.{last_moves, worker_stop-joins}
use zdia.Worker.Shutdown.FreeWhileRunning.{to_pop, worker_free-fault}

-- The blocks below 30 are allocated.
abbrev below_thirty : Live
below_thirty q = ltb q 30

-- An array, and its data behind it.
abbrev array_from : ℕ → ArrayAt
array_from p = record { arr = p; data_block = p + 1 }

-- A message with a grouped AVP with two AVPs.
abbrev nested : MsgAt
nested = record {
  msg = 1;
  raw_data = 2;
  avps = avps (array_from 3) (
      cons (avp_at 5 (avps (array_from 6) (cons (avp_at 8 no_avps) (cons (avp_at 9 no_avps) nil))))
        nil);
}

nested-Owned : Owned (msg_blocks nested) below_thirty
nested-Owned = ground arith

msg_free-without_example :
    (msg_free (some nested) below_thirty ≡ ok (without (msg_blocks nested) below_thirty))
    × ((q : ℕ) → Among q (msg_blocks nested) → without (msg_blocks nested) below_thirty q ≡ false)
    × ((q : ℕ)
        → NotAmong q (msg_blocks nested)
        → without (msg_blocks nested) below_thirty q ≡ below_thirty q)
msg_free-without_example = msg_free-without nested below_thirty nested-Owned

abbrev small_dict : DictAt
small_dict = record {
  dict = 1;
  apps = array_from 2;
  vendors = array_from 4;
  cmds = array_from 6;
  avps = array_from 8;
  types = array_from 10;
  entry_arrays = array_from 12 ∷ array_from 14 ∷ [];
}

small_dict-Owned : Owned (dict_blocks small_dict ++ blocks_of small_dict.entry_arrays) below_thirty
small_dict-Owned = ground arith

dict_free-entries_example :
    (live' : Live) × (dict_free (some small_dict) below_thirty ≡ ok live')
    × ((q : ℕ) → Among q (dict_blocks small_dict) → live' q ≡ false)
    × ((q : ℕ) → NotAmong q (dict_blocks small_dict) → live' q ≡ below_thirty q)
    × Owned (blocks_of small_dict.entry_arrays) live'
dict_free-entries_example = dict_free-entries small_dict below_thirty small_dict-Owned

abbrev queue_there : QueueAt
queue_there = record { queue = 2; data_block = 3 }

abbrev a_worker_running : Worker
a_worker_running = record { id = 0; status = 1; queue = [] }

worker_stop-joins_example :
    (s : State) × (run 1 queue_there
        (thread_moves ∷ main_moves ∷ thread_moves ∷ main_moves ∷ [])
        (at_call stop_test finished a_worker_running below_thirty at_pop)
      ≡ ok s)
    × IsThere 1 queue_there s.live
    × (s.main ≡ finished → (s.worker.status ≡ 0) × HasEnded s.thread)
    × (s' : State) × (run 1 queue_there last_moves s ≡ ok s')
    × (s'.main ≡ finished)
worker_stop-joins_example =
    worker_stop-joins 1 queue_there a_worker_running below_thirty at_pop
      (thread_moves ∷ main_moves ∷ thread_moves ∷ main_moves ∷ []) (refl, refl, refl)
      (λ e. omega arith) (λ e. e)

worker_free-fault_example :
    (run 1 queue_there
        (main_moves ∷ to_pop asleep)
        (at_call freeing_queue freeing_worker a_worker_running below_thirty asleep)
      ≡ fault)
    × ((ev : Event) (ms : List Move)
        → run 1 queue_there
            (main_moves ∷ receiver_pushes ev ∷ ms)
            (at_call freeing_queue freeing_worker a_worker_running below_thirty asleep)
          ≡ fault)
worker_free-fault_example =
    worker_free-fault 1 queue_there a_worker_running below_thirty asleep (ground arith)
      (λ e. omega arith) (λ e. e)
