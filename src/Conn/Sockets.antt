-- ===== src/Conn/Sockets.antt =====
-- conn.c: connections as sockets. What `malloc` leaves in a new `conn_t` is a parameter.
pub mod Open
use zdia.Prelude.{ℕ, Bool, Option, none, some, List, [], ◌∷◌, ℤ, pos, negsuc, ◌==◌, if◌then◌else◌}
use zdia.Bytes.{Bytes}
use zdia.System.{System, Address, is_negative, is_zero}
use zdia.Tcp.{attempt, tcp_create_bind}

-- `conn_t`
pub record Connection : Type 0 where
  pub sock : ℤ
  pub family : ℕ
  pub protocol : ℕ

abbrev pub ipproto_tcp : ℕ
ipproto_tcp = 6

-- SALEN: the sizes of `sockaddr_in` and `sockaddr_in6`.
abbrev pub salen : ℕ → ℕ
salen family = if family == 2 then 16 else if family == 10 then 28 else 0

module _ {Os : Type 0} (s : System Os) where
  unfoldable pub conn_free : Os → Option Connection → Os
  conn_free os none = os
  conn_free os (some conn) =
      if is_zero conn.sock then os else s.close (s.shutdown os conn.sock) conn.sock

  -- With the first of the endpoints that are given; the port is not used.
  unfoldable pub bind_first : Connection → Os → Address → Option Connection × Os
  unfolding tcp_create_bind
  bind_first conn os host =
      let (status, (sock, os1)) = tcp_create_bind s os host (salen host.family) in
      if is_negative status
      then (none, os1)
      else (some (record conn { sock = sock; family = host.family }), os1)

  unfoldable pub bind_endpoints : Connection → Os → List Address → Option Connection × Os
  unfolding bind_first
  bind_endpoints conn os [] = (none, os)
  bind_endpoints conn os (host ∷ others) = bind_first conn os host

  module _ (junk : Connection) where
    unfoldable pub conn_serv_bind : Os → ℕ → List Address → Option Connection × Os
    unfolding bind_endpoints
    conn_serv_bind os protocol ep =
        let conn = record junk { protocol = protocol } in
        if protocol == ipproto_tcp then bind_endpoints conn os ep else (some conn, os)

  unfoldable pub conn_serv_listen : Os → Connection → ℤ × Os
  unfolding attempt
  conn_serv_listen os conn = attempt (s.listen os conn.sock 5) λ os1. (pos 0, os1)

  -- `conn_new` does not return a null pointer.
  unfoldable pub conn_serv_accept : Os → Connection → Option Connection × Os
  conn_serv_accept os conn =
      let (cli_sock, os1) = s.accept os conn.sock in
      if is_negative cli_sock
      then (none, os1)
      else (some (record { sock = cli_sock; family = conn.family; protocol = conn.protocol }), os1)

  unfoldable pub conn_send : Os → Connection → Bytes → ℤ × Os
  conn_send os conn bytes = s.send os conn.sock bytes

-- It never connects.
abbrev pub conn_cli_connect : ℕ → ℕ → List Address → Option Connection
conn_cli_connect protocol port ep = none
