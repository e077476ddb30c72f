-- ===== src/Server/Accept/Open.antt =====
-- server.c: the sockets of the connections that a server accepts.
use zdia.Prelude.{
  subst, ℕ, zero, suc, ◌≡◌, refl, sym, ◌∙◌, ap, Bool, Bool-cases, inl, inr, true, false, some, List,
  [], ◌∷◌, ◌++◌, append_assoc, append-nil, ℤ, pos, negsuc, ◌==◌, eq→==,
}
use zdia.System.{
  System, receiver_routine, is_negative, is_zero, opening, without, HasTable, HasZero,
}
use zdia.Tcp.{attempt}
use zdia.Conn.Sockets.{Connection, conn_free, conn_serv_accept, conn_serv_listen}
use zdia.Server.Accept.{
  Receiver, Receivers, receiver_free, receiver_new, on_accept, accept_loop, server_thread,
}

-- The table with the sockets of receivers, the last of them in front.
abbrev pub with_sockets : List Receiver → List ℤ → List ℤ
with_sockets [] fds = fds
with_sockets (r ∷ rs) fds = with_sockets rs (r.conn.sock ∷ fds)

with_sockets-append :
    (xs ys : List Receiver) (fds : List ℤ)
    → with_sockets (xs ++ ys) fds ≡ with_sockets ys (with_sockets xs fds)
with_sockets-append [] ys fds = refl
with_sockets-append (x ∷ xs) ys fds = with_sockets-append xs ys (x.conn.sock ∷ fds)

opening_failed : (fd : ℤ) (fds : List ℤ) → is_negative fd ≡ true → opening fd fds ≡ fds
opening_failed (pos n) fds e = absurd (false_true e)
  where
    false_true : ◌≡◌ {A = Bool} false true → ⊥
    false_true h = cc
opening_failed (negsuc n) fds e = refl

opening_fine : (fd : ℤ) (fds : List ℤ) → is_negative fd ≡ false → opening fd fds ≡ fd ∷ fds
opening_fine (pos n) fds e = refl
opening_fine (negsuc n) fds e = absurd (true_false e)
  where
    true_false : ◌≡◌ {A = Bool} true false → ⊥
    true_false h = cc

without_head : (fd : ℤ) (fds : List ℤ) → without fd (fd ∷ fds) ≡ fds
without_head (pos n) fds = rw (eq→== n n refl) refl
without_head (negsuc n) fds = rw (eq→== n n refl) refl

module _ {Os : Type 0} (s : System Os) (table : Os → List ℤ) (law : HasTable s table) where
  conn_free-table :
      (os : Os) (conn : Connection) (fds : List ℤ)
      → is_zero conn.sock ≡ false
      → table os ≡ conn.sock ∷ fds
      → table (conn_free s os (some conn)) ≡ fds
  unfolding conn_free
  conn_free-table os conn fds e t = rw e (
      law.close (s.shutdown os conn.sock) conn.sock
      ∙ ap (without conn.sock) (law.shutdown os conn.sock ∙ t)
      ∙ without_head conn.sock fds)

  -- What a round adds.
  Adds : Receivers → List ℤ → Receivers × Os → Type 0
  Adds rs fds (rs', os') =
      (new : List Receiver) × (rs'.receivers ≡ rs.receivers ++ new)
      × (table os' ≡ with_sockets new fds)

  with_sockets-HasZero :
      (new : List Receiver) (fds : List ℤ) → HasZero fds → HasZero (with_sockets new fds)
  with_sockets-HasZero [] fds z = z
  with_sockets-HasZero (r ∷ rs) fds z = with_sockets-HasZero rs (r.conn.sock ∷ fds) (inr z)

  accepted : (os : Os) (fd : ℤ) → HasZero (table os) → is_zero (s.accept os fd).0 ≡ false
  accepted os fd z = elim (Bool-cases (is_zero (s.accept os fd).0)) [
    | inl e ↦ absurd (law.accept_new os fd e z)
    | inr e ↦ e
  ]

  accept_round :
      (conn : Connection) (os : Os) (rs : Receivers)
      → HasZero (table os)
      → Adds rs
          (table os)
          (on_accept s (conn_serv_accept s os conn).1 rs (conn_serv_accept s os conn).0)
  unfolding Adds on_accept conn_serv_accept receiver_new receiver_free
  accept_round conn os rs zero_open =
      let (fd, os1) = s.accept os conn.sock in
      let new : Connection = record { sock = fd; family = conn.family; protocol = conn.protocol } in
      let opened = law.accept os conn.sock in
      elim (Bool-cases (is_negative fd)) [
        | inl n ↦ rw n ([], sym (append-nil rs.receivers), opened ∙ opening_failed fd (table os) n)
        | inr p ↦
            let at_front = opened ∙ opening_fine fd (table os) p in
            let started = law.pthread_create os1 receiver_routine ∙ at_front in
            elim (Bool-cases ((s.pthread_create os1 receiver_routine).0 == 0)) [
              | inl z ↦ rw (p, z) (record { id = rs.receiver_id; conn = new } ∷ [], refl, started)
              | inr nz ↦
                  rw (p, nz)
                    (
                      [],
                      sym (append-nil rs.receivers),
                      conn_free-table (s.pthread_create os1 receiver_routine).1 new (table os)
                          (accepted os conn.sock zero_open) started,
                    )
            ]
      ]

  accept_loop-Adds :
      (n : ℕ) (conn : Connection) (os : Os) (rs : Receivers)
      → HasZero (table os)
      → Adds rs (table os) (accept_loop s n conn os rs)
  unfolding Adds accept_loop
  accept_loop-Adds zero conn os rs z = ([], sym (append-nil rs.receivers), refl)
  accept_loop-Adds (suc n) conn os rs z =
      let (accepted, os1) = conn_serv_accept s os conn in
      let (rs', os2) = on_accept s os1 rs accepted in
      let (new, more, opened) = accept_round conn os rs z in
      let (later, more', opened') =
        accept_loop-Adds n conn os2 rs'
          (subst HasZero (sym opened) (with_sockets-HasZero new (table os) z)) in
      (
        new ++ later,
        more' ∙ ap (λ xs. xs ++ later) more ∙ append_assoc rs.receivers new later,
        opened' ∙ ap (with_sockets later) opened ∙ sym (with_sockets-append new later (table os)),
      )

  -- Where descriptor 0 is open when the server's thread starts, and `accept` never returns a
  -- descriptor that is open: after any number of rounds the server has the receivers it had and new
  -- ones behind them, and the sockets that were opened meanwhile and are not closed are just those
  -- of the new receivers. No connection is lost, also where a thread does not start.
  pub server_thread-table :
      (n : ℕ) (conn : Connection) (os : Os) (rs : Receivers)
      → HasZero (table os)
      → (new : List Receiver) × ((server_thread s n conn os rs).0.receivers ≡ rs.receivers ++ new)
        × (table (server_thread s n conn os rs).1 ≡ with_sockets new (table os))
  unfolding server_thread conn_serv_listen attempt Adds
  server_thread-table n conn os rs z = elim (Bool-cases (s.listen os conn.sock 5).0) [
    | inl fine ↦
        let (new, more, opened) =
          accept_loop-Adds n conn (s.listen os conn.sock 5).1 rs
            (subst HasZero (sym (law.listen os conn.sock 5)) z) in
        rw fine (new, more, opened ∙ ap (with_sockets new) (law.listen os conn.sock 5))
    | inr failed ↦ rw failed ([], sym (append-nil rs.receivers), law.listen os conn.sock 5)
  ]
