-- ===== src/Tests/Systems.antt =====
-- Sockets and threads on a small operating system.
use zdia.Prelude.{
  Bool, sym, ◌∙◌, ℕ, zero, suc, ◌≡◌, ◌⊎◌, inl, refl, none, some, List, [], ◌∷◌, ◌++◌, arith, ok,
  fault, true, false, All, ℤ, pos, length, if◌then◌else◌, ne→==,
}
use zdia.System.{System, HasTable, is_zero, Address, opening, without, is_negative}
use zdia.Tcp.{set_up}
use zdia.Conn.Sockets.{Connection, conn_serv_bind, ipproto_tcp, salen}
use zdia.Conn.Sockets.Open.{conn_serv_bind-table}
use zdia.Server.{Server}
use zdia.Server.Start.{server_new, server_new-workers, FailsWithin, IsRunning}
use zdia.Server.Accept.{Receiver, server_thread}
use zdia.Server.Accept.Open.{server_thread-table, with_sockets}

-- The open sockets, the last descriptor, and how many threads can still be started.
pub record Desk : Type 0 where
  pub fds : List ℤ
  pub last : ℕ
  pub threads : ℕ

abbrev pub open_next : Desk → ℤ × Desk
open_next d = (pos (suc d.last), record d { fds = pos (suc d.last) ∷ d.fds; last = suc d.last })

abbrev pub start_thread : Desk → ℕ → ℕ × Desk
start_thread d zero = (11, d)
start_thread d (suc n) = (0, record d { threads = n })

start_thread-fds : (d : Desk) (n : ℕ) → (start_thread d n).1.fds ≡ d.fds
start_thread-fds d zero = refl
start_thread-fds d (suc n) = refl

-- No address can be bound.
abbrev pub desk : System Desk
desk = record {
  socket = λ d family. open_next d;
  setsockopt = λ d fd o. (true, d);
  bind = λ d fd a n. (false, d);
  listen = λ d fd n. (true, d);
  accept = λ d fd. open_next d;
  shutdown = λ d fd. d;
  close = λ d fd. record d { fds = without fd d.fds };
  send = λ d fd bytes. (pos (length bytes), d);
  pthread_create = λ d r. start_thread d d.threads;
  pthread_join = λ d. d;
}

suc_zero : (n : ℕ) → is_zero (pos (suc n)) ≡ true → ⊥
suc_zero n e = absurd (true_false (sym e ∙ ne→== (suc n) 0 (λ z. omega arith)))
  where
    true_false : ◌≡◌ {A = Bool} true false → ⊥
    true_false h = cc

desk-HasTable : HasTable desk (λ d. d.fds)
desk-HasTable = record {
  socket = λ d family. refl;
  setsockopt = λ d fd o. refl;
  bind = λ d fd a n. refl;
  listen = λ d fd n. refl;
  accept = λ d fd. refl;
  accept_new = λ d fd e. absurd (suc_zero d.last e);
  shutdown = λ d fd. refl;
  close = λ d fd. refl;
  pthread_create = λ d r. start_thread-fds d d.threads;
}

abbrev idle : Desk
idle = record { fds = pos 0 ∷ []; last = 2; threads = 3 }

abbrev listener : Connection
listener = record { sock = pos 3; family = 2; protocol = 6 }

abbrev localhost : Address
localhost = record { family = 2; rest = [] }

conn_serv_bind-table_example :
    let (conn, os') = conn_serv_bind desk listener idle ipproto_tcp (localhost ∷ []) in
    let sock = (desk.socket idle 2).0 in
    let (status, os'') = set_up desk (desk.socket idle 2).1 sock localhost (salen 2) in
    (os'.fds ≡ opening sock (pos 0 ∷ []))
    × (conn ≡ (
        if is_negative sock
        then none
        else if is_negative status
        then none
        else some (record { sock = sock; family = 2; protocol = ipproto_tcp })))
conn_serv_bind-table_example =
    conn_serv_bind-table desk (λ d. d.fds) desk-HasTable listener idle localhost []

-- Three threads start, and the fourth does not.
server_new-workers_example :
    (FailsWithin desk 4 idle × (server_new desk none idle ≡ fault))
    ⊎ ((FailsWithin desk 4 idle → ⊥)
        × (server : Server) × (os' : Desk) × (server_new desk none idle ≡ ok (server, os'))
        × (length server.workers ≡ 4)
        × All IsRunning server.workers
        × (server.curr_worker ≡ 0))
server_new-workers_example = server_new-workers desk none idle

server_thread-table_example :
    (new : List Receiver) × ((server_thread desk 5 listener idle
        (record { receivers = []; receiver_id = 0 })).0.receivers
      ≡ [] ++ new)
    × ((server_thread desk 5 listener idle (record { receivers = []; receiver_id = 0 })).1.fds
        ≡ with_sockets new (pos 0 ∷ []))
server_thread-table_example =
    server_thread-table desk (λ d. d.fds) desk-HasTable 5 listener idle
      (record { receivers = []; receiver_id = 0 }) (inl refl)
