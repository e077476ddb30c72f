-- ===== src/Conn.antt =====
-- conn.c: a connection. `recv` is the operating system's: it is a parameter, over a state of the
-- network of its own.
pub mod Sockets
use zdia.Prelude.{ℕ, ◌≤◌, ◌<◌, ◌≡◌, ◌≢◌, [], ◌++◌, length}
use zdia.Bytes.{Bytes}

-- What `recv` returns: a negative number, or the bytes that it has put into the buffer. No bytes
-- mean that the peer has closed the connection.
pub data Received : Type 0 where
  failed : Received
  got : Bytes → Received

pub record Network (Net : Type 0) : Type 0 where
  pub recv : Net → ℕ → Received × Net

unfoldable pub conn_recv : {Net : Type 0} → Network Net → Net → ℕ → Received × Net
conn_recv n net len = n.recv net len

-- A stream socket, as documented: while bytes are under way, a call returns some of them, in order
-- and no more than were asked for; how many is up to the network.
pub record IsStream {Net : Type 0} (n : Network Net) (pending : Net → Bytes) : Type 0 where
  pub arrives :
      (net : Net) (len : ℕ)
      → 0 < len
      → pending net ≢ []
      → (b : Bytes) × (net' : Net) × (n.recv net len ≡ (got b, net'))
        × (0 < length b)
        × (length b ≤ len)
        × (pending net ≡ b ++ pending net')

-- When all bytes have come and the peer has closed the connection, a call returns no bytes.
pub record Closes {Net : Type 0} (n : Network Net) (pending : Net → Bytes) : Type 0 where
  pub closed :
      (net : Net) (len : ℕ)
      → pending net ≡ []
      → (net' : Net) × (n.recv net len ≡ (got [], net')) × (pending net' ≡ [])
