-- ===== src/Tcp.antt =====
-- tcp.c: a TCP socket, bound to an address, and made to listen. What is logged is left out.
use zdia.Prelude.{ℕ, Bool, ℤ, pos, negsuc, if◌then◌else◌}
use zdia.System.{System, Address, so_reuseaddr, so_sndtimeo, is_negative}

-- A call whose failure is logged and ends the function with -1.
unfoldable pub attempt : {Os : Type 0} → Bool × Os → (Os → ℤ × Os) → ℤ × Os
attempt (fine, os) next = let after = next os in if fine then after else (negsuc 0, os)

module _ {Os : Type 0} (s : System Os) where
  -- The calls on the socket. The second is logged as SO_RCVTIMEO.
  unfoldable pub set_up : Os → ℤ → Address → ℕ → ℤ × Os
  set_up os sock sa len = attempt (s.setsockopt os sock (so_reuseaddr 1)) λ os1.
      attempt (s.setsockopt os1 sock (so_sndtimeo 100000)) λ os2.
        attempt (s.setsockopt os2 sock (so_sndtimeo 100000))
          λ os3. attempt (s.bind os3 sock sa len) λ os4. (pos 0, os4)

  -- The status, the value of `*sock`, and the system after it.
  unfoldable pub tcp_create_bind : Os → Address → ℕ → ℤ × (ℤ × Os)
  unfolding set_up
  tcp_create_bind os sa len =
      let (sock, os1) = s.socket os sa.family in
      let (status, os2) = set_up os1 sock sa len in
      if is_negative sock then (negsuc 0, (sock, os1)) else (status, (sock, os2))

  unfoldable pub tcp_listen : Os → ℤ → ℤ × Os
  unfolding attempt
  tcp_listen os sock = attempt (s.listen os sock 5) λ os1. (pos 0, os1)
