-- ===== src/Worker.antt =====
-- worker.c: what a worker does with an event of its queue. What it prints, and its calls of
-- `msg_handler` and `ind_handler`, are outputs.
pub mod Round
pub mod Shutdown
use Prim.Native.String.{String}
use zdia.Prelude.{
  ℕ, zero, suc, Option, none, some, List, [], ◌∷◌, Run, ok, out_of_fuel, ◌>>=◌, non_null, ◌==◌,
  if◌then◌else◌, ◌++◌,
}
use zdia.Host.{Host}
use zdia.Avp.{Avp, Value}
use zdia.Msg.{Msg, parse_all}
use zdia.Queue.Fifo.{fifo_pop}
use zdia.Server.{Worker, Event, event_msg, event_ind, Ind}

-- `ce_received` is the line for a capabilities exchange, `avp_line` the line for an AVP.
pub data Output : Type 0 where
  ce_received : Output
  msg_handled : Msg → Output
  ind_handled : Ind → Output
  avp_line : ℕ → Option String → Value → Output

unfoldable pub avp_lines : List Avp → Run (List Output)
avp_lines [] = ok []
avp_lines (avp ∷ avps) = do
  da ← non_null avp.dict_avp
  lines ← avp_lines avps
  ok (avp_line da.code da.name avp.value ∷ lines)

abbrev pub ce_code : ℕ
ce_code = 257

-- The `switch` on the command.
abbrev pub by_command : Msg → Output
by_command msg = if msg.header.cmd_code == ce_code then ce_received else msg_handled msg

module _ (h : Host) where
  unfoldable pub worker_msg_proc : ℕ → Msg → Run (List Output)
  unfolding avp_lines
  worker_msg_proc fuel msg = do
    parsed ← parse_all h fuel msg
    lines ← avp_lines parsed.avps
    ok (by_command parsed ∷ lines)

  unfoldable pub worker_ind_proc : Ind → Run (List Output)
  worker_ind_proc ind = ok (ind_handled ind ∷ [])

  unfoldable pub process : ℕ → Event → Run (List Output)
  unfolding worker_msg_proc worker_ind_proc
  process fuel (event_msg msg) = worker_msg_proc fuel msg
  process fuel (event_ind ind) = worker_ind_proc ind

  -- One round of `worker_thread`: an empty queue makes it sleep.
  unfoldable pub worker_round : ℕ → Worker → Run (List Output × Worker)
  unfolding process fifo_pop
  worker_round fuel w = let (status, ev, queue) = fifo_pop w.queue in taken status ev queue
    where
      taken : ℕ → Option Event → List Event → Run (List Output × Worker)
      taken status none queue = ok ([], w)
      taken status (some ev) queue = do out ← process fuel ev; ok (out, record w { queue = queue })

  -- `worker_thread` for so many rounds, while the worker's status is not 0.
  unfoldable pub worker_thread : ℕ → ℕ → Worker → Run (List Output × Worker)
  unfolding worker_round
  worker_thread zero fuel w = ok ([], w)
  worker_thread (suc rounds) fuel w = if w.status == 0 then ok ([], w) else do
    (out, w') ← worker_round fuel w
    (rest, w'') ← worker_thread rounds fuel w'
    ok (out ++ rest, w'')
