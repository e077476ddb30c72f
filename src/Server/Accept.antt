-- ===== src/Server/Accept.antt =====
-- server.c and receiver.c: the loop that accepts connections, and a receiver for each.
pub mod Open
use zdia.Prelude.{
  ℕ, zero, suc, ◌+◌, ◌%◌, ◌^◌, ◌≡◌, refl, sym, ◌∙◌, ap, Bool, Bool-cases, inl, inr, true, false,
  Option, none, some, List, [], ◌∷◌, ◌++◌, append_assoc, append-nil, ℤ, pos, negsuc, ◌==◌,
  if◌then◌else◌,
}
use zdia.System.{
  System, receiver_routine, server_routine, Address, is_negative, is_zero, opening, without,
  HasTable,
}
use zdia.Conn.Sockets.{Connection, conn_free, conn_serv_accept, conn_serv_listen, conn_serv_bind}

-- `receiver_t`; the thread, the pointer to the server and the list are left out.
pub record Receiver : Type 0 where
  pub id : ℕ
  pub conn : Connection

-- `server->receivers`, and the counter `receiver_id`.
pub record Receivers : Type 0 where
  pub receivers : List Receiver
  pub receiver_id : ℕ

module _ {Os : Type 0} (s : System Os) where
  unfoldable pub receiver_free : Os → Option Receiver → Os
  unfolding conn_free
  receiver_free os none = os
  receiver_free os (some r) = conn_free s os (some r.conn)

  -- The thread does not start: no receiver, and its connection is closed. The `zd_malloc` of the
  -- receiver, which ends the process where it fails, is left out.
  unfoldable pub receiver_new : Os → ℕ → Connection → Option Receiver × Os
  unfolding receiver_free
  receiver_new os id conn =
      let r : Receiver = record { id = id; conn = conn } in
      let (ret, os1) = s.pthread_create os receiver_routine in
      if ret == 0 then (some r, os1) else (none, receiver_free os1 (some r))

  abbrev pub kept : Receivers → Option Receiver → Receivers
  kept rs none = record rs { receiver_id = (rs.receiver_id + 1) % 2 ^ 32 }
  kept rs (some r) = record rs {
    receivers = rs.receivers ++ (r ∷ []);
    receiver_id = (rs.receiver_id + 1) % 2 ^ 32;
  }

  unfoldable pub on_accept : Os → Receivers → Option Connection → Receivers × Os
  unfolding receiver_new
  on_accept os rs none = (rs, os)
  on_accept os rs (some conn) =
      let (r, os1) = receiver_new os rs.receiver_id conn in (kept rs r, os1)

  -- So many rounds of the loop, which has no end.
  unfoldable pub accept_loop : ℕ → Connection → Os → Receivers → Receivers × Os
  unfolding on_accept conn_serv_accept
  accept_loop zero conn os rs = (rs, os)
  accept_loop (suc n) conn os rs =
      let (accepted, os1) = conn_serv_accept s os conn in
      let (rs', os2) = on_accept os1 rs accepted in accept_loop n conn os2 rs'

  unfoldable pub server_thread : ℕ → Connection → Os → Receivers → Receivers × Os
  unfolding accept_loop conn_serv_listen
  server_thread n conn os rs =
      let (failed, os1) = conn_serv_listen s os conn in
      if is_zero failed then accept_loop n conn os1 rs else (rs, os1)

  -- The status, and the connection of the server.
  unfoldable pub server_start : Connection → Os → ℕ → List Address → ℤ × (Option Connection × Os)
  unfolding conn_serv_bind
  server_start junk os protocol endpoints =
      started (conn_serv_bind s junk os protocol endpoints).0
        (conn_serv_bind s junk os protocol endpoints).1
    where
      started : Option Connection → Os → ℤ × (Option Connection × Os)
      started none os1 = (negsuc 0, (none, os1))
      started (some conn) os1 =
          let (ret, os2) = s.pthread_create os1 server_routine in
          ((if ret == 0 then pos 0 else negsuc 0), (some conn, os2))
