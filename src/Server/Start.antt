-- ===== src/Server/Start.antt =====
-- worker.c and server.c: starting and stopping of workers, and a new server. A new queue is empty. The
-- allocations of `server_new` and `worker_new`, which end the process where they fail, are left out.
use zdia.Prelude.{
  ==_iff, ℕ, zero, suc, ◌≡◌, ◌≢◌, refl, ap, Bool, Bool-cases, true, false, inl, inr, ◌⊎◌, Option,
  List, [], ◌∷◌, Run, ok, fault, ◌>>=◌, ◌==◌, if◌then◌else◌, length, All, arith,
}
use zdia.Dict.Types.{Dict}
use zdia.System.{System, worker_routine}
use zdia.Server.{Worker, Server}

abbrev pub einval : ℕ
einval = 22

-- `worker_new` returns a pointer to a worker, which may be freed already.
pub record NewWorker : Type 0 where
  pub worker : Worker
  pub freed : Bool

-- A worker at work, with nothing to do.
abbrev pub IsRunning : Worker → Type 0
IsRunning w = (w.status ≡ 1) × (w.queue ≡ [])

module _ {Os : Type 0} (s : System Os) where
  -- The status is 1 while the thread is started, and stays so if it is.
  unfoldable pub worker_start : Os → Worker → ℕ × (Worker × Os)
  worker_start os w =
      let (ret, os1) = s.pthread_create os worker_routine in
      if w.status == 0
      then (ret, ((if ret == 0 then record w { status = 1 } else record w { status = 0 }), os1))
      else (einval, (w, os))

  unfoldable pub worker_stop : Os → Worker → Worker × Os
  worker_stop os w = if w.status == 0 then (w, os) else (record w { status = 0 }, s.pthread_join os)

  unfoldable pub worker_new : Os → NewWorker × Os
  unfolding worker_start
  worker_new os =
      let (ret, (w, os1)) = worker_start os (record { id = 0; status = 0; queue = [] }) in
      (record { worker = w; freed = if ret == 0 then false else true }, os1)

  -- `worker->server = s` for each of the new workers; through a freed pointer it is a fault.
  unfoldable pub new_workers : ℕ → Os → Run (List Worker × Os)
  unfolding worker_new
  new_workers zero os = ok ([], os)
  new_workers (suc n) os =
      let (new, os1) = worker_new os in
      let others = new_workers n os1 in
      if new.freed then fault else others >>= λ r. ok (new.worker ∷ r.0, r.1)

  -- `dict` is what `malloc` leaves there.
  unfoldable pub server_new : Option Dict → Os → Run (Server × Os)
  unfolding new_workers
  server_new dict os =
      new_workers 4 os >>= λ r. ok (record { dict = dict; workers = r.0; curr_worker = 0 }, r.1)

  -- One of the next `n` threads does not start.
  abbrev pub FailsWithin : ℕ → Os → Type 0
  FailsWithin zero os = ⊥
  FailsWithin (suc n) os =
      ((s.pthread_create os worker_routine).0 ≢ 0)
      ⊎ FailsWithin n (s.pthread_create os worker_routine).1

  new_workers-IsRunning :
      (n : ℕ) (os : Os)
      → (FailsWithin n os × (new_workers n os ≡ fault))
        ⊎ ((FailsWithin n os → ⊥)
            × (ws : List Worker) × (os' : Os) × (new_workers n os ≡ ok (ws, os'))
            × (length ws ≡ n)
            × All IsRunning ws)
  unfolding new_workers worker_new worker_start
  new_workers-IsRunning zero os = inr ((λ f. f), [], os, refl, refl, tt)
  new_workers-IsRunning (suc n) os =
      elim (Bool-cases ((s.pthread_create os worker_routine).0 == 0)) [
        | inl e ↦ elim (new_workers-IsRunning n (s.pthread_create os worker_routine).1) [
          | inl (fails, h) ↦ inl (inr fails, rw (e, h) refl)
          | inr (fine, ws, os', h, len, run) ↦ inr (
            none_fails e fine,
            record { id = 0; status = 1; queue = [] } ∷ ws,
            os',
            rw (e, h) refl,
            ap suc len,
            ((refl, refl), run),
          )
        ]
        | inr f ↦ inl (inl (λ z. ground arith), rw f refl)
      ]
    where
      none_fails :
          ((s.pthread_create os worker_routine).0 == 0) ≡ true
          → (FailsWithin n (s.pthread_create os worker_routine).1 → ⊥)
          → FailsWithin (suc n) os
          → ⊥
      none_fails e fine (inl f) = f ((==_iff _ _).0 e)
      none_fails e fine (inr later) = fine later

  -- If one of the four threads does not start, `server_new` faults: it writes through the pointer to a
  -- worker that `worker_new` has freed. If all of them start, it makes a server with four workers, all with status
  -- 1 and an empty queue, of which the first has the next message.
  pub server_new-workers :
      (dict : Option Dict) (os : Os)
      → (FailsWithin 4 os × (server_new dict os ≡ fault))
        ⊎ ((FailsWithin 4 os → ⊥)
            × (server : Server) × (os' : Os) × (server_new dict os ≡ ok (server, os'))
            × (length server.workers ≡ 4)
            × All IsRunning server.workers
            × (server.curr_worker ≡ 0))
  unfolding server_new
  server_new-workers dict os = elim (new_workers-IsRunning 4 os) [
    | inl (fails, h) ↦ inl (fails, rw h refl)
    | inr (fine, ws, os', h, len, run) ↦ inr (
      fine,
      record { dict = dict; workers = ws; curr_worker = 0 },
      os',
      rw h refl,
      len,
      run,
      refl,
    )
  ]
