-- ===== src/Conn/Sockets/Open.antt =====
-- Which sockets are open after the calls of conn.c and tcp.c.
use zdia.Prelude.{
  ℕ, ◌≡◌, refl, ◌∙◌, Bool, Bool-cases, inl, inr, true, false, none, some, List, ◌∷◌, ℤ,
  if◌then◌else◌,
}
use zdia.System.{System, Address, so_reuseaddr, so_sndtimeo, is_negative, opening, HasTable}
use zdia.Tcp.{attempt, set_up, tcp_create_bind}
use zdia.Conn.Sockets.{Connection, ipproto_tcp, salen, bind_first, bind_endpoints, conn_serv_bind}

module _ {Os : Type 0} (s : System Os) (table : Os → List ℤ) (law : HasTable s table) where
  Left : List ℤ → ℤ × Os → Type 0
  Left t r = table r.1 ≡ t

  attempt-Left :
      (t : List ℤ) (r : Bool × Os) (next : Os → ℤ × Os)
      → table r.1 ≡ t
      → ((os : Os) → table os ≡ t → Left t (next os))
      → Left t (attempt r next)
  unfolding attempt Left
  attempt-Left t (true, os) next e after = after os e
  attempt-Left t (false, os) next e after = e

  set_up-Left :
      (os : Os) (sock : ℤ) (sa : Address) (len : ℕ) → table (set_up s os sock sa len).1 ≡ table os
  unfolding set_up Left
  set_up-Left os sock sa len =
      attempt-Left (table os) _ _ (law.setsockopt os sock (so_reuseaddr 1)) λ os1 e1.
        attempt-Left (table os) _ _ (law.setsockopt os1 sock (so_sndtimeo 100000) ∙ e1) λ os2 e2.
          attempt-Left (table os) _ _ (law.setsockopt os2 sock (so_sndtimeo 100000) ∙ e2)
            λ os3 e3. attempt-Left (table os) _ _ (law.bind os3 sock sa len ∙ e3) λ os4 e4. e4

  -- Given an address, `conn_serv_bind` for TCP asks for a socket, and the socket, if there is one, is
  -- open afterwards, whether or not the calls after that succeed; where one fails, the result is a
  -- null pointer, so that the open socket is lost. A connection that it does return has this socket.
  pub conn_serv_bind-table :
      (junk : Connection) (os : Os) (host : Address) (others : List Address)
      → let (conn, os') = conn_serv_bind s junk os ipproto_tcp (host ∷ others) in
        let sock = (s.socket os host.family).0 in
        let (status, os'') = set_up s (s.socket os host.family).1 sock host (salen host.family) in
        (table os' ≡ opening sock (table os))
        × (conn ≡ (
            if is_negative sock
            then none
            else if is_negative status
            then none
            else some (record { sock = sock; family = host.family; protocol = ipproto_tcp })))
  unfolding conn_serv_bind bind_endpoints bind_first tcp_create_bind Left
  conn_serv_bind-table junk os host others =
      let (sock, os1) = s.socket os host.family in
      let opened = law.socket os host.family in
      let kept = set_up-Left os1 sock host (salen host.family) ∙ opened in
      elim (Bool-cases (is_negative sock)) [
        | inl n ↦ rw n (opened, refl)
        | inr p ↦ elim (Bool-cases (is_negative (set_up s os1 sock host (salen host.family)).0)) [
          | inl failed ↦ rw (p, failed) (kept, refl)
          | inr fine ↦ rw (p, fine) (kept, refl)
        ]
      ]
